-- ===== src/Imu/Service/Calibration.antt =====
-- modules/imu/imu_service.c: the calibration of the bias of the rates, before the service is ready.
use nuedc_control_freertos.Prelude.{
  ℕ, zero, suc, ◌+◌, Bool, true, false, ◌||◌, not, ℤ, pos, ltb, sub_u32, if◌then◌else◌, Option,
  none, some, ◌>>=◌,
}
use nuedc_control_freertos.Control.Floats.{Floats}
use nuedc_control_freertos.Imu.Device.{
  Icm45688, zero_f, one_f, set_gyro_scale, set_gyro_bias, set_gyro_bias_auto_update,
  reset_sample_low_pass, reset_attitude,
}
use nuedc_control_freertos.Imu.Attitude.{Vector}
use nuedc_control_freertos.Imu.Sample.{imu_ok, is_ok}
use nuedc_control_freertos.Imu.Service.{
  ImuBoard, State, heartbeat, wait_and_update_imu, sample_stddev, data_timeout_ms,
  cal_warmup_samples, cal_samples,
}

-- the sums of the rates and of their squares
pub record Sums (F : Type 0) : Type 0 where
  pub sum : Vector F
  pub sq_sum : Vector F

module _ (fl : Floats) where
  open fl use {Float, lit, add, mul, div, lt, of_int}

  abbrev pub no_rates : Vector Float
  no_rates = record { x = zero_f fl; y = zero_f fl; z = zero_f fl }

  unfoldable pub add_sample : Sums Float → Icm45688 Float → Sums Float
  add_sample sums imu = record {
    sum = record {
      x = add sums.sum.x imu.gx_dps;
      y = add sums.sum.y imu.gy_dps;
      z = add sums.sum.z imu.gz_dps;
    };
    sq_sum = record {
      x = add sums.sq_sum.x (mul imu.gx_dps imu.gx_dps);
      y = add sums.sq_sum.y (mul imu.gy_dps imu.gy_dps);
      z = add sums.sq_sum.z (mul imu.gz_dps imu.gz_dps);
    };
  }

  -- the settings before the samples
  unfoldable pub uncalibrated : Icm45688 Float → Icm45688 Float
  uncalibrated imu =
      let scaled = set_gyro_scale fl imu (one_f fl) (one_f fl) (one_f fl) in
      let biased = set_gyro_bias fl scaled (zero_f fl) (zero_f fl) (zero_f fl) in
      reset_attitude fl
        (reset_sample_low_pass fl (set_gyro_bias_auto_update fl biased false (zero_f fl)))

  -- the settings after them
  unfoldable pub calibrated : Icm45688 Float → Sums Float → Icm45688 Float
  calibrated imu sums =
      let n = of_int (pos cal_samples) in
      let biased = set_gyro_bias fl imu (div sums.sum.x n) (div sums.sum.y n) (div sums.sum.z n) in
      let scaled = set_gyro_scale fl biased (one_f fl) (one_f fl) (lit 994821 6) in
      reset_attitude fl
        (reset_sample_low_pass fl (set_gyro_bias_auto_update fl scaled true (lit 2 3)))

  -- whether a deviation is above the limit
  unfoldable pub is_restless : Sums Float → Bool
  is_restless sums =
      let limit = lit 50 2 in
      lt limit (sample_stddev fl sums.sum.x sums.sq_sum.x cal_samples)
      || (lt limit (sample_stddev fl sums.sum.y sums.sq_sum.y cal_samples)
          || lt limit (sample_stddev fl sums.sum.z sums.sq_sum.z cal_samples))

  module _ (hw : ImuBoard) where
    -- `n` samples from the sample `i` on, the first ones to warm up; the status of the first that
    -- fails
    unfoldable pub collect :
        ℕ → ℕ → ℕ → State fl hw → Sums Float → Option (State fl hw × ℤ × Sums Float)
    collect fuel zero i s sums = some (s, imu_ok, sums)
    collect fuel (suc n) i s sums = do
      (s', status) ← wait_and_update_imu fl hw fuel data_timeout_ms s
      if is_ok status
          then collect fuel n (i + 1) (heartbeat fl hw s')
              (if ltb i cal_warmup_samples then sums else add_sample sums s'.imu)
          else some (s', status, sums)

    unfoldable pub delay_from : ℕ → ℕ → ℕ → State fl hw → Option (State fl hw)
    delay_from zero start delay_ticks s = none
    delay_from (suc fuel) start delay_ticks s =
        let beaten = heartbeat fl hw s in
        let rest =
          delay_from fuel start delay_ticks (record beaten { world = hw.delay 10 s.world }) in
        if ltb (sub_u32 (hw.ticks s.world) start) delay_ticks then rest else some s

    unfoldable pub delay_with_heartbeat : ℕ → ℕ → State fl hw → Option (State fl hw)
    delay_with_heartbeat fuel delay_ms s = delay_from fuel (hw.ticks s.world) delay_ms s

    -- `attempts` bounds the calibrations, `fuel` the waits
    unfoldable pub calibrate_gyro_bias : ℕ → ℕ → State fl hw → Option (State fl hw × ℤ)
    calibrate_gyro_bias zero fuel s = none
    calibrate_gyro_bias (suc attempts) fuel s = do
      (s', status, sums) ←
          collect fuel (cal_warmup_samples + cal_samples) 0 (record s { imu = uncalibrated s.imu })
            (record { sum = no_rates; sq_sum = no_rates })
      if not (is_ok status)
          then some (s', status)
          else if is_restless sums
          then (delay_with_heartbeat fuel 500 s' >>= calibrate_gyro_bias attempts fuel)
          else some (record s' { imu = calibrated s'.imu sums }, imu_ok)
