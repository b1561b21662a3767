-- ===== src/App/Machine/Held.antt =====
-- Until a snapshot of the sensor is ready, the firmware does not run the car.
use nuedc_control_freertos.Prelude.{
  ℕ, false, List, [], ◌≡◌, refl, ap, ◌∙◌, All, Returns, Returns->>=,
}
use nuedc_control_freertos.Platform.Wiring.{encoder_pins}
use nuedc_control_freertos.Platform.Uart.Sent.{IsPrompt}
use nuedc_control_freertos.Telemetry.Emit
use nuedc_control_freertos.Telemetry.Emit.{print}
use nuedc_control_freertos.Telemetry.Emit.Output.{IsKept, print-Returns}
use nuedc_control_freertos.Telemetry.Command.{
  TelemetryImuCalRequest, imu_cal_none, imu_cal_start, imu_cal_cancel, consume_imu_cal,
}
use nuedc_control_freertos.Telemetry.Uart.{irq_handler}
use nuedc_control_freertos.Control.Floats.{Floats}
use nuedc_control_freertos.Control.LineTracker
use nuedc_control_freertos.Imu.Service.{ImuBoard, State}
use nuedc_control_freertos.Imu.Service.Task.{request_yaw_calibration, cancel_yaw_calibration}
use nuedc_control_freertos.App.{is_run}
use nuedc_control_freertos.App.Round.{round-next_state}
use nuedc_control_freertos.App.Start.{next-standing, control-ready}
use nuedc_control_freertos.App.Tasks.{snapshot_ready, copy_imu_snapshot, fast_round}
use nuedc_control_freertos.App.Mission.{Inputs}
use nuedc_control_freertos.App.Mission.Lost.{guided_round-control_round}
use nuedc_control_freertos.App.Machine.Steps.{run-keeps}
use nuedc_control_freertos.App.Machine.{
  Machine, Environment, Step, fast, control, telemetry, health, received, edge, sensed, alive,
  raised, Whole, car, fast_task, control_task, pass_on, telemetry_task, rx_interrupt, step, run,
}

-- the sensor's task leaves no snapshot that is ready
abbrev pub IsUnready : {F S : Type 0} → Step F S → Type 0
IsUnready (sensed s) = snapshot_ready s.snapshot ≡ false
IsUnready _ = Unit

-- the car does not run, and knows of no ready sensor
pub record IsHeld {F S : Type 0} (m : Machine F S) : Type 0 where
  pub standing : is_run m.ctx.state ≡ false
  pub unready : m.ctx.imu_ready ≡ false
  pub unpublished : snapshot_ready m.sensor.snapshot ≡ false

module _ (fl : Floats) (hw : ImuBoard) (e : Environment fl.Float) where
  fast-IsHeld :
      (read_pins : ℕ → ℕ → ℕ) (now : ℕ) (m : Whole fl hw e)
      → IsHeld m
      → IsHeld (fast_task fl hw e read_pins now m)
  unfolding fast_task fast_round copy_imu_snapshot
  fast-IsHeld read_pins now m h = record {
    standing = h.standing;
    unready = h.unpublished;
    unpublished = h.unpublished;
  }

  control-IsHeld : (i : Inputs) (m : Whole fl hw e) → IsHeld m → IsHeld (control_task fl hw e i m)
  unfolding control_task
  control-IsHeld i m h =
      let turn = (LineTracker.update fl i.values i.marks m.tracker).1 in
      let same = guided_round-control_round fl (encoder_pins e.pin_map) i (car m) m.tracker in
      record {
        standing =
            ap (λ k. is_run k.ctx.state) same
            ∙ ap is_run
                (round-next_state fl (encoder_pins e.pin_map) i.read_pins turn i.now (car m))
            ∙ next-standing fl (encoder_pins e.pin_map) (car m) h.standing h.unready;
        unready =
            ap (λ k. k.ctx.imu_ready) same
            ∙ control-ready fl (encoder_pins e.pin_map) i.read_pins turn i.now (car m)
            ∙ h.unready;
        unpublished = h.unpublished;
      }

  pass_on-snapshot :
      (r : TelemetryImuCalRequest) (s : State fl hw) → (pass_on fl hw e r s).snapshot ≡ s.snapshot
  unfolding pass_on request_yaw_calibration cancel_yaw_calibration
  pass_on-snapshot imu_cal_none s = refl
  pass_on-snapshot imu_cal_start s = refl
  pass_on-snapshot imu_cal_cancel s = refl

  telemetry-IsHeld :
      (now : ℕ) (m : Whole fl hw e)
      → IsPrompt e.dev e.uart.inst e.looks
      → IsHeld m
      → Returns (telemetry_task fl hw e now m) IsHeld
  unfolding telemetry_task
  telemetry-IsHeld now m prompt h =
      let lines = (Emit.tick fl m.emitter m.port now (m.ctx, m.tracker.sensor.frame)).1 in
      Returns->>= (IsKept m.uart) IsHeld (print e.dev e.uart e.looks e.line_text lines m.uart) _
        (print-Returns e.dev e.uart e.looks e.line_text lines m.uart prompt)
        (λ u _. record {
          standing = h.standing;
          unready = h.unready;
          unpublished =
              ap snapshot_ready (pass_on-snapshot (consume_imu_cal m.port).1 m.sensor)
              ∙ h.unpublished;
        })

  received-IsHeld :
      (m : Whole fl hw e)
      → IsPrompt e.dev e.uart.inst e.looks
      → IsHeld m
      → Returns (rx_interrupt fl hw e m) IsHeld
  unfolding rx_interrupt
  received-IsHeld m prompt h =
      let (u, s) = irq_handler e.dev e.uart m.uart (m.port, []) in
      Returns->>= (IsKept u) IsHeld (print e.dev e.uart e.looks e.reply_text s.1 u) _
        (print-Returns e.dev e.uart e.looks e.reply_text s.1 u prompt)
        (λ u' _. record { standing = h.standing; unready = h.unready; unpublished = h.unpublished })

  step-IsHeld :
      (s : Step fl.Float hw.vendor.State) (m : Whole fl hw e)
      → IsPrompt e.dev e.uart.inst e.looks
      → IsUnready s
      → IsHeld m
      → Returns (step fl hw e m s) IsHeld
  unfolding step
  step-IsHeld (fast read_pins now) m prompt never h = fast-IsHeld read_pins now m h
  step-IsHeld (control i) m prompt never h = control-IsHeld i m h
  step-IsHeld (telemetry now) m prompt never h = telemetry-IsHeld now m prompt h
  step-IsHeld (health now) m prompt never h = record {
    standing = h.standing;
    unready = h.unready;
    unpublished = h.unpublished;
  }
  step-IsHeld received m prompt never h = received-IsHeld m prompt h
  step-IsHeld (edge read_pins pending) m prompt never h = record {
    standing = h.standing;
    unready = h.unready;
    unpublished = h.unpublished;
  }
  step-IsHeld (sensed s) m prompt never h = record {
    standing = h.standing;
    unready = h.unready;
    unpublished = never;
  }
  step-IsHeld (alive now) m prompt never h = record {
    standing = h.standing;
    unready = h.unready;
    unpublished = h.unpublished;
  }
  step-IsHeld (raised code detail) m prompt never h = record {
    standing = h.standing;
    unready = h.unready;
    unpublished = h.unpublished;
  }

  -- On a UART that is no longer busy after so many looks, the firmware goes on through any rounds,
  -- interrupts and faults; and as long as the sensor's task leaves no ready snapshot, a car that
  -- stands and knows of no ready sensor stands in the end.
  pub run-IsHeld :
      (ss : List (Step fl.Float hw.vendor.State)) (m : Whole fl hw e)
      → IsPrompt e.dev e.uart.inst e.looks
      → All IsUnready ss
      → IsHeld m
      → Returns (run fl hw e m ss) IsHeld
  run-IsHeld ss m prompt never h =
      run-keeps fl hw e IsUnready IsHeld (λ s m unready h'. step-IsHeld s m prompt unready h') ss m
        never h
