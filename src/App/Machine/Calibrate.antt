-- ===== src/App/Machine/Calibrate.antt =====
-- The command that asks for a calibration of the yaw scale, from its bytes to the sensor's task.
use nuedc_control_freertos.Prelude.{
  ℕ, ℤ, true, List, [], ◌∷◌, ◌++◌, ◌≡◌, refl, ap, ◌∙◌, arith, Returns, Returns->>=,
}
use nuedc_control_freertos.Platform.Uart.Sent.{IsPrompt}
use nuedc_control_freertos.System.Health
use nuedc_control_freertos.System.Health.{Health, task_telemetry}
use nuedc_control_freertos.Telemetry.Command.{
  Port, TelemetryImuCalRequest, cal_start_word, imu_cal_start, imu_cal_none, handle_line,
  handle_value, cut, same, after_word, consume_imu_cal,
}
use nuedc_control_freertos.Telemetry.Command.Line.{feed, feed-line}
use nuedc_control_freertos.Telemetry.Emit
use nuedc_control_freertos.Telemetry.Emit.{print}
use nuedc_control_freertos.Telemetry.Emit.Output.{IsKept, print-Returns}
use nuedc_control_freertos.Control.Floats.{Floats}
use nuedc_control_freertos.Imu.YawCalibration
use nuedc_control_freertos.Imu.YawCalibration.{ImuYawCalState, wait_still, service_requests}
use nuedc_control_freertos.Imu.Service.{ImuBoard, State}
use nuedc_control_freertos.Imu.Service.Task.{request_yaw_calibration, serve}
use nuedc_control_freertos.App.Machine.{Environment, Whole, pass_on, telemetry_task}

module _ (atoi strtol : List ℕ → ℤ) (strtoul : List ℕ → ℕ) where
  command-request :
      (p : Port)
      → (handle_line atoi strtol strtoul p cal_start_word).0.imu_cal_request ≡ imu_cal_start
  unfolding handle_line handle_value cut same after_word
  command-request p = refl

  pub feed-request :
      (p : Port)
      → p.cmd_line ≡ []
      → (feed atoi strtol strtoul p (cal_start_word ++ 10 ∷ [])).0.imu_cal_request ≡ imu_cal_start
  feed-request p fresh =
      let q = record p { cmd_line = p.cmd_line ++ cal_start_word } in
      ap (λ r. r.0.imu_cal_request)
        (feed-line atoi strtol strtoul p cal_start_word
          (
            refl,
            (
              refl,
              (
                refl,
                (refl, (refl, (refl, (refl, (refl, (refl, (refl, (refl, (refl, (refl, tt)))))))))),
              ),
            ),
          )
          (rw fresh (omega arith)))
      ∙ ap (λ line. (handle_line atoi strtol strtoul q (line ++ cal_start_word)).0.imu_cal_request)
          fresh
      ∙ command-request q

module _ (fl : Floats) (hw : ImuBoard) (e : Environment fl.Float) where
  -- the service after it has served its requests has begun a calibration
  serve-wait_still :
      (s : State fl hw) → s.start_requested ≡ true → (serve fl hw s).cal.state ≡ wait_still
  unfolding serve service_requests YawCalibration.start
  serve-wait_still s h = rw h refl

  pass_on-wait_still :
      (r : TelemetryImuCalRequest) (s : State fl hw) (h : Health)
      → r ≡ imu_cal_start
      → (serve fl hw (record (pass_on fl hw e r s) { health = h })).cal.state ≡ wait_still
  unfolding pass_on request_yaw_calibration
  pass_on-wait_still r s h asked =
      rw asked (serve-wait_still (record s { start_requested = true; health = h }) refl)

  -- From an empty command line, the bytes of `$IMUCAL,START` and a line feed, and then a round of the
  -- telemetry task, which returns if the UART is no longer busy after so many looks: the request is
  -- consumed, and the sensor's task begins a calibration when it serves its requests next.
  pub telemetry_task-calibrates :
      (now : ℕ) (m : Whole fl hw e)
      → IsPrompt e.dev e.uart.inst e.looks
      → m.port.cmd_line ≡ []
      → let p = (feed e.atoi e.strtol e.strtoul m.port (cal_start_word ++ 10 ∷ [])).0 in
        Returns (telemetry_task fl hw e now (record m { port = p })) (λ m'.
          (m'.port.imu_cal_request ≡ imu_cal_none)
          × ((serve fl hw m'.sensor).cal.state ≡ wait_still))
  unfolding telemetry_task consume_imu_cal
  telemetry_task-calibrates now m prompt fresh =
      let p = (feed e.atoi e.strtol e.strtoul m.port (cal_start_word ++ 10 ∷ [])).0 in
      let lines = (Emit.tick fl m.emitter p now (m.ctx, m.tracker.sensor.frame)).1 in
      Returns->>= (IsKept m.uart) _ (print e.dev e.uart e.looks e.line_text lines m.uart) _
        (print-Returns e.dev e.uart e.looks e.line_text lines m.uart prompt)
        (λ u _. (
          refl,
          pass_on-wait_still p.imu_cal_request m.sensor
              (Health.beat (pass_on fl hw e p.imu_cal_request m.sensor).health task_telemetry now)
              (feed-request e.atoi e.strtol e.strtoul m.port fresh),
        ))
