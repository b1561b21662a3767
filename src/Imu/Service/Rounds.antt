-- ===== src/Imu/Service/Rounds.antt =====
-- The scale of the yaw rate over the rounds of the task, whatever the other tasks ask of it.
use nuedc_control_freertos.Prelude.{
  ℕ, ◌+◌, Bool, true, List, [], ◌∷◌, ℤ, ◌≡◌, ap, arith, Bool-cases, inl, inr, Returns, Returns->>=,
  Option, some, ◌>>=◌,
}
use nuedc_control_freertos.Control.Floats.{Floats}
use nuedc_control_freertos.Imu.Device.{Icm45688, one_f}
use nuedc_control_freertos.Imu.Sample
use nuedc_control_freertos.Imu.Sample.{is_ok, get_data_ready}
use nuedc_control_freertos.Imu.Sample.Stationary.{step-scale, step-ready}
use nuedc_control_freertos.Imu.YawCalibration.{Calibrated, scale_is_valid}
use nuedc_control_freertos.Imu.YawCalibration.Scale.{
  IsPositive, IsConsistent, update-IsConsistent, service_requests-IsConsistent,
}
use nuedc_control_freertos.Imu.Service.{
  ImuBoard, State, ready, look, heartbeat, publish_snapshot, wait_and_update_imu, data_timeout_ms,
}
use nuedc_control_freertos.Imu.Service.Task.{
  serve, calibrate, round, request_yaw_calibration, cancel_yaw_calibration,
}
use nuedc_control_freertos.Imu.Service.Wait.{HasClock, slept, wait_from-Returns}

-- a round of the task, or a request of another task between two of them
pub data Event : Type 0 where
  turn requested cancelled : Event

module _ (fl : Floats) (hw : ImuBoard) where
  abbrev pub wait_fuel : ℕ
  wait_fuel = data_timeout_ms + 1

  unfoldable pub happen : Event → State fl hw → Option (State fl hw)
  happen turn s = round fl hw wait_fuel s
  happen requested s = some (request_yaw_calibration fl hw s)
  happen cancelled s = some (cancel_yaw_calibration fl hw s)

  unfoldable pub run : List Event → State fl hw → Option (State fl hw)
  run [] s = some s
  run (e ∷ es) s = happen e s >>= run es

  abbrev calibrated : State fl hw → Calibrated fl.Float
  calibrated s = record { imu = s.imu; cal = s.cal }

  -- the scale that is in use fits the state of the calibration
  abbrev pub Fits : State fl hw → Type 0
  Fits s = IsConsistent fl (calibrated s)

  -- what a reading keeps
  abbrev kept : Icm45688 fl.Float → fl.Float × Bool
  kept dev = (dev.gyro_scale_z, dev.ready)

  update-kept :
      (dev : Icm45688 fl.Float) (w : hw.vendor.State)
      → kept (Sample.update fl hw.vendor dev w).0 ≡ kept dev
  unfolding Sample.update
  update-kept dev w =
      let (w', status, raw) = hw.vendor.get_register_data w in
      ground (arith, step-scale fl dev raw, step-ready fl dev raw)

  look-kept :
      (s : State fl hw) → (kept (look fl hw s).0.imu ≡ kept s.imu) × ((look fl hw s).0.cal ≡ s.cal)
  unfolding look get_data_ready
  look-kept s =
      let (w, status, drdy) = get_data_ready fl hw.vendor s.imu s.world in
      ground (arith, update-kept s.imu w)

  look-Fits : (s : State fl hw) → Fits s → Fits (look fl hw s).0
  look-Fits s f = let (imu_kept, cal_kept) = look-kept s in rw (ap (λ k. k.0) imu_kept, cal_kept) f

  slept-Fits : (s : State fl hw) → Fits s → Fits (slept fl hw s)
  unfolding heartbeat
  slept-Fits s f = f

  module _ (clock : hw.vendor.State → ℕ) (moves : HasClock hw clock) where
    wait-Fits :
        (s : State fl hw)
        → Fits s
        → Returns (wait_and_update_imu fl hw wait_fuel data_timeout_ms s) (λ r. Fits r.0)
    unfolding wait_and_update_imu
    wait-Fits s f = rw (moves.counted s.world) (
        wait_from-Returns fl hw clock moves Fits (λ r. Fits r.0) (λ s status f e. look-Fits s f)
          (λ s f e. look-Fits s f) (λ s f e. slept-Fits (look fl hw s).0 (look-Fits s f)) wait_fuel
          (clock s.world) data_timeout_ms s (omega arith) (omega arith) (omega arith) (omega arith)
          (omega arith) f)

    module _ (one_IsPositive : IsPositive fl (one_f fl))
        (valid-IsPositive : (x : fl.Float) → scale_is_valid fl x ≡ true → IsPositive fl x) where
      serve-Fits : (s : State fl hw) → Fits s → Fits (serve fl hw s)
      unfolding serve
      serve-Fits s f =
          service_requests-IsConsistent fl one_IsPositive valid-IsPositive s.cancel_requested
            s.start_requested (calibrated s) f

      calibrate-Fits : (s : State fl hw) → Fits s → Fits (calibrate fl hw s)
      unfolding calibrate
      calibrate-Fits s f = update-IsConsistent fl one_IsPositive valid-IsPositive (calibrated s) f

      publish-Fits :
          (s : State fl hw) (status : ℤ)
          → Fits s
          → Fits (heartbeat fl hw (publish_snapshot fl hw s ready status))
      unfolding heartbeat publish_snapshot
      publish-Fits s status f = f

      round-Fits : (s : State fl hw) → Fits s → Returns (round fl hw wait_fuel s) Fits
      unfolding round
      round-Fits s f =
          Returns->>= (λ r. Fits r.0) Fits
            (wait_and_update_imu fl hw wait_fuel data_timeout_ms (serve fl hw s)) _
            (wait-Fits (serve fl hw s) (serve-Fits s f))
            (λ (s', status) f'. elim (Bool-cases (is_ok status)) [
              | inl good ↦ rw good (publish-Fits (calibrate fl hw s') status (calibrate-Fits s' f'))
              | inr bad ↦ rw bad (publish-Fits s' status f')
            ])

      -- Where the clock moves on as HasClock says and 1 and every valid scale are positive, any
      -- sequence of rounds of the sensor task and of requests between them returns, and if the yaw
      -- scale in use fits the state of the calibration at first, it does so in the end.
      pub run-Fits : (events : List Event) (s : State fl hw) → Fits s → Returns (run events s) Fits
      unfolding run happen request_yaw_calibration cancel_yaw_calibration
      run-Fits [] s f = f
      run-Fits (turn ∷ es) s f =
          Returns->>= Fits Fits (round fl hw wait_fuel s) (run es) (round-Fits s f) (run-Fits es)
      run-Fits (requested ∷ es) s f = run-Fits es (request_yaw_calibration fl hw s) f
      run-Fits (cancelled ∷ es) s f = run-Fits es (cancel_yaw_calibration fl hw s) f
