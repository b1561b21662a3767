-- ===== src/Imu/Service/Task.antt =====
-- modules/imu/imu_service.c: the start of the task, its endless loop by rounds, and what the other
-- tasks ask of it.
use nuedc_control_freertos.Prelude.{
  pos, ℕ, zero, suc, true, false, ◌&&◌, not, ℤ, wrap, [], ◌==◌, if◌then◌else◌, Option, some, ◌>>=◌,
}
use nuedc_control_freertos.Platform.Calls.{Trace}
use nuedc_control_freertos.Platform.Spi.{DrvSpiBus}
use nuedc_control_freertos.Motor.Board.{Board}
use nuedc_control_freertos.System.Fault
use nuedc_control_freertos.System.Fault.{Faults, imu_fault}
use nuedc_control_freertos.Control.Floats.{Floats}
use nuedc_control_freertos.Imu.Sample.{imu_error, is_ok, expected_whoami, read_who_am_i, begin}
use nuedc_control_freertos.Imu.YawCalibration
use nuedc_control_freertos.Imu.Device.{zero_f}
use nuedc_control_freertos.Imu.Attitude.{Vector}
use nuedc_control_freertos.Imu.YawCalibration.{idle, Calibrated, cleared, service_requests}
use nuedc_control_freertos.Imu.Service.{
  ImuSnapshot, off, ImuBoard, State, initializing, calibrating, ready, faulted, heartbeat,
  publish_snapshot, wait_and_update_imu, configure_imu_handle, data_timeout_ms, init_retries,
}
use nuedc_control_freertos.Imu.Service.Calibration.{delay_with_heartbeat, calibrate_gyro_bias}

module _ (fl : Floats) (hw : ImuBoard) where
  -- one attempt to start the sensor, and its status
  unfoldable pub attempt : DrvSpiBus → State fl hw → State fl hw × ℤ
  attempt bus s =
      let (imu, w, read, whoami) =
        read_who_am_i fl hw.vendor (configure_imu_handle fl bus) s.world in
      let (imu', w', begun) = begin fl hw.vendor imu w in
      if is_ok read && (whoami == expected_whoami)
      then (record s { imu = imu'; world = w' }, begun)
      else (record s { imu = imu; world = w }, read)

  -- the attempts, with a delay after each that fails
  unfoldable pub attempts : ℕ → DrvSpiBus → ℕ → State fl hw → ℤ → Option (State fl hw × ℤ)
  attempts fuel bus zero s status = some (s, status)
  attempts fuel bus (suc n) s status =
      let (s', status') = attempt bus s in
      if is_ok status'
      then some (s', status')
      else (delay_with_heartbeat fl hw fuel 200 s' >>= λ waited. attempts fuel bus n waited status')

  -- the task up to its endless loop; a status other than `imu_ok` is a fault
  unfoldable pub start_up : ℕ → DrvSpiBus → State fl hw → Option (State fl hw × ℤ)
  start_up fuel bus s = do
    (started, status) ←
        attempts fuel bus init_retries (publish_snapshot fl hw s initializing imu_error) imu_error
    if not (is_ok status) then some (publish_snapshot fl hw started faulted status, status) else do
      (calibrated, status') ←
          calibrate_gyro_bias fl hw fuel fuel (publish_snapshot fl hw started calibrating status)
      if is_ok status'
          then some (record calibrated { cal = cleared fl }, status')
          else some (publish_snapshot fl hw calibrated faulted status', status')

  -- `System_Fault_Raise` with the status as its detail, if the start has failed
  unfoldable pub report : ℤ → ℕ → Faults → Board → Faults × Board × Trace
  report status tick f b =
      if is_ok status then (f, b, []) else Fault.raise tick f b imu_fault (wrap 4294967296 status)

  -- the requests, with the flags that are served reset
  unfoldable pub serve : State fl hw → State fl hw
  serve s =
      let c =
        service_requests fl s.cancel_requested s.start_requested
          (record { imu = s.imu; cal = s.cal }) in
      record s { imu = c.imu; cal = c.cal; start_requested = false; cancel_requested = false }

  unfoldable pub calibrate : State fl hw → State fl hw
  calibrate s =
      let c = YawCalibration.update fl (record { imu = s.imu; cal = s.cal }) in
      record s { imu = c.imu; cal = c.cal }

  -- a round of the endless loop
  unfoldable pub round : ℕ → State fl hw → Option (State fl hw)
  round fuel s = do
    (s', status) ← wait_and_update_imu fl hw fuel data_timeout_ms (serve s)
    let measured = if is_ok status then calibrate s' else s'
    some (heartbeat fl hw (publish_snapshot fl hw measured ready status))

  unfoldable pub request_yaw_calibration : State fl hw → State fl hw
  request_yaw_calibration s = record s { start_requested = true }

  unfoldable pub cancel_yaw_calibration : State fl hw → State fl hw
  cancel_yaw_calibration s = record s { cancel_requested = true }

  abbrev nothing : Vector fl.Float
  nothing = record { x = zero_f fl; y = zero_f fl; z = zero_f fl }

  -- `memset` to 0
  unfoldable pub init : State fl hw → State fl hw
  init s = record s {
    snapshot = record {
      sequence = 0;
      timestamp_ms = 0;
      accel_g = nothing;
      gyro_dps = nothing;
      temperature_c = zero_f fl;
      pitch_deg = zero_f fl;
      roll_deg = zero_f fl;
      yaw_deg = zero_f fl;
      gyro_bias_z_dps = zero_f fl;
      gyro_scale_z = zero_f fl;
      status = pos 0;
      state = off;
      yaw_cal_state = idle;
      stationary = false;
      ready = false;
    };
    cal = cleared fl;
  }

  unfoldable pub get_snapshot : State fl hw → ImuSnapshot fl.Float
  get_snapshot s = s.snapshot
