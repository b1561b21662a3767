-- ===== src/Imu/Sample.antt =====
-- modules/imu/device/dev_icm45688.c: a sample of the sensor, from the vendor's driver to the
-- attitude, and the start of the sensor. The vendor's driver (third_party/tdk_icm45688) is an
-- interface over a state of its own; a status is the driver's `int`.
pub mod Stationary
use nuedc_control_freertos.Prelude.{
  ℕ, ◌+◌, Bool, true, false, ◌&&◌, ◌||◌, not, List, [], ◌∷◌, ℤ, pos, negsuc, is_zero_ℤ, ltb, leb,
  bit_or, signed, wrap, ◌==◌, if◌then◌else◌,
}
use nuedc_control_freertos.Control.Floats.{Floats}
use nuedc_control_freertos.Imu.Device.{
  Icm45688, AttitudeMode, is_mahony, zero_f, one_f, clampf_local, clear_measurements,
}
use nuedc_control_freertos.Imu.Attitude.{
  Vector, min_norm_sq, accel_norm_sq, apply_sample_lowpass, update_complementary_attitude,
  update_mahony_attitude,
}

pub record RawData : Type 0 where
  pub accel_x : ℤ
  pub accel_y : ℤ
  pub accel_z : ℤ
  pub gyro_x : ℤ
  pub gyro_y : ℤ
  pub gyro_z : ℤ
  pub temp : ℤ

-- the calls that configure the sensor, in the order of `ICM45688_MSPM0_Begin`
pub data Setup : Type 0 where
  soft_reset accel_fsr_16_g accel_odr_200_hz gyro_fsr_1000_dps gyro_odr_200_hz accel_bw_div_4
        gyro_bw_div_4 accel_mode_ln gyro_mode_ln int1_config0_drdy int1_config1 int1_pin :
      Setup

abbrev pub setups : List Setup
setups =
    soft_reset ∷ accel_fsr_16_g ∷ accel_odr_200_hz ∷ gyro_fsr_1000_dps ∷ gyro_odr_200_hz
    ∷ accel_bw_div_4 ∷ gyro_bw_div_4 ∷ accel_mode_ln ∷ gyro_mode_ln ∷ int1_config0_drdy
    ∷ int1_config1 ∷ int1_pin ∷ []

-- the vendor's driver
pub record Vendor : Type 1 where
  pub State : Type 0
  pub get_who_am_i : State → State × ℤ × ℕ
  pub write_drive_config0 : State → State × ℤ
  pub set_up : Setup → State → State × ℤ
  pub get_int_status : State → State × ℤ × Bool  -- with the bit `INV_UI_DRDY`
  pub get_register_data : State → State × ℤ × RawData

abbrev pub imu_ok : ℤ
imu_ok = pos 0

abbrev pub imu_error : ℤ
imu_error = negsuc 0

abbrev pub expected_whoami : ℕ
expected_whoami = 0xE9

abbrev pub is_ok : ℤ → Bool
is_ok status = is_zero_ℤ status

-- `|` on two `int`s
unfoldable pub or_status : ℤ → ℤ → ℤ
or_status a b = signed 2147483648 (bit_or (wrap 4294967296 a) (wrap 4294967296 b))

abbrev pub bias_learn_stationary_samples : ℕ
bias_learn_stationary_samples = 600

module _ (fl : Floats) where
  open fl use {Float, lit, add, sub, mul, div, fabs, sqrt, lt, le, of_int}

  -- the test of one sample
  unfoldable pub instant_stationary : Icm45688 Float → Bool
  unfolding accel_norm_sq
  instant_stationary dev =
      let norm_sq = accel_norm_sq fl dev in
      let gyro_mag_dps = sqrt (
        add (add (mul dev.gx_dps dev.gx_dps) (mul dev.gy_dps dev.gy_dps))
          (mul dev.gz_dps dev.gz_dps)) in
      let accel_err_g = fabs (sub (sqrt norm_sq) (one_f fl)) in
      if lt (min_norm_sq fl) norm_sq
        && (lt (zero_f fl) dev.stationary_gyro_threshold_dps
            && le (zero_f fl) dev.stationary_accel_threshold_g)
      then le gyro_mag_dps dev.stationary_gyro_threshold_dps
        && le accel_err_g dev.stationary_accel_threshold_g
      else false

  unfoldable pub hold_samples : Icm45688 Float → ℕ
  hold_samples dev = if dev.stationary_hold_samples == 0 then 1 else dev.stationary_hold_samples

  unfoldable pub update_stationary_state : Icm45688 Float → Icm45688 Float
  unfolding hold_samples
  update_stationary_state dev =
      let count =
        if instant_stationary dev
        then (if ltb dev.stationary_sample_count (hold_samples dev)
            then dev.stationary_sample_count + 1
            else dev.stationary_sample_count)
        else 0 in
      record dev { stationary_sample_count = count; stationary = leb (hold_samples dev) count }

  unfoldable pub update_auto_gyro_bias : Icm45688 Float → Vector Float → Icm45688 Float
  update_auto_gyro_bias dev raw =
      let limit = lit 35 2 in
      let learn = clampf_local fl dev.gyro_bias_learning_rate (zero_f fl) (one_f fl) in
      if not dev.gyro_bias_auto_update
      then dev
      else if not dev.stationary
          || (lt limit (fabs dev.gx_dps)
              || (lt limit (fabs dev.gy_dps) || lt limit (fabs dev.gz_dps)))
      then record dev { gyro_bias_stationary_samples = 0 }
      else if ltb dev.gyro_bias_stationary_samples bias_learn_stationary_samples
      then record dev { gyro_bias_stationary_samples = dev.gyro_bias_stationary_samples + 1 }
      else if le learn (zero_f fl)
      then dev
      else record dev {
        gyro_bias_x_dps = add dev.gyro_bias_x_dps (mul (sub raw.x dev.gyro_bias_x_dps) learn);
        gyro_bias_y_dps = add dev.gyro_bias_y_dps (mul (sub raw.y dev.gyro_bias_y_dps) learn);
        gyro_bias_z_dps = add dev.gyro_bias_z_dps (mul (sub raw.z dev.gyro_bias_z_dps) learn);
      }

  abbrev scaled : ℤ → Float → Float
  scaled raw fsr = div (mul (of_int raw) fsr) (lit 327680 1)

  -- the samples in physical units, without the correction
  unfoldable pub raw_accel : Icm45688 Float → RawData → Vector Float
  raw_accel dev raw = record {
    x = scaled raw.accel_x dev.accel_fsr_g;
    y = scaled raw.accel_y dev.accel_fsr_g;
    z = scaled raw.accel_z dev.accel_fsr_g;
  }

  unfoldable pub raw_gyro : Icm45688 Float → RawData → Vector Float
  raw_gyro dev raw = record {
    x = scaled raw.gyro_x dev.gyro_fsr_dps;
    y = scaled raw.gyro_y dev.gyro_fsr_dps;
    z = scaled raw.gyro_z dev.gyro_fsr_dps;
  }

  unfoldable pub corrected_gyro : Icm45688 Float → Vector Float → Vector Float
  corrected_gyro dev g = record {
    x = mul (sub g.x dev.gyro_bias_x_dps) dev.gyro_scale_x;
    y = mul (sub g.y dev.gyro_bias_y_dps) dev.gyro_scale_y;
    z = mul (sub g.z dev.gyro_bias_z_dps) dev.gyro_scale_z;
  }

  -- what the step of the bias takes off the rates
  unfoldable pub shift_rates : Icm45688 Float → Icm45688 Float → Icm45688 Float
  shift_rates old dev = record dev {
    gx_dps = sub dev.gx_dps (mul (sub dev.gyro_bias_x_dps old.gyro_bias_x_dps) dev.gyro_scale_x);
    gy_dps = sub dev.gy_dps (mul (sub dev.gyro_bias_y_dps old.gyro_bias_y_dps) dev.gyro_scale_y);
    gz_dps = sub dev.gz_dps (mul (sub dev.gyro_bias_z_dps old.gyro_bias_z_dps) dev.gyro_scale_z);
  }

  -- a sample filtered, before it is judged
  unfoldable pub filter_sample : Icm45688 Float → RawData → Icm45688 Float
  filter_sample dev raw =
      let g = corrected_gyro dev (raw_gyro dev raw) in
      record (apply_sample_lowpass fl dev (raw_accel dev raw) g) {
        temp_c = add (lit 250 1) (div (of_int raw.temp) (lit 1280 1));
      }

  -- a sample up to the attitude
  unfoldable pub measure : Icm45688 Float → RawData → Icm45688 Float
  unfolding update_stationary_state update_auto_gyro_bias shift_rates filter_sample
  measure dev raw =
      let still = update_stationary_state (filter_sample dev raw) in
      shift_rates still (update_auto_gyro_bias still (raw_gyro dev raw))

  unfoldable pub update_attitude : Icm45688 Float → Icm45688 Float
  update_attitude dev =
      if is_mahony dev.attitude_mode
      then update_mahony_attitude fl dev
      else update_complementary_attitude fl dev

  module _ (vendor : Vendor) where
    open vendor use {
      State, get_who_am_i, write_drive_config0, set_up, get_int_status, get_register_data,
    }

    unfoldable pub read_who_am_i : Icm45688 Float → State → Icm45688 Float × State × ℤ × ℕ
    read_who_am_i dev s =
        let (s', status, who) = get_who_am_i s in
        (if is_ok status then record dev { last_who_am_i = who } else dev, s', status, who)

    -- each call is made whatever the earlier ones gave; the status collects their bits
    unfoldable pub set_up_all : List Setup → State → ℤ → State × ℤ
    set_up_all [] s status = (s, status)
    set_up_all (c ∷ cs) s status = let (s', r) = set_up c s in set_up_all cs s' (or_status status r)

    unfoldable pub begin : Icm45688 Float → State → Icm45688 Float × State × ℤ
    begin dev s =
        let cleared = clear_measurements fl (record dev { ready = false }) in
        let (s1, drive) = write_drive_config0 s in
        let (known, s2, read, who) = read_who_am_i cleared s1 in
        let (s3, configured) = set_up_all setups s2 (or_status drive read) in
        let (s4, looked, _) = get_int_status s3 in
        let status = or_status configured looked in
        if dev.bus.inst == 0
        then (dev, s, negsuc 10)
        else if not (is_ok drive)
        then (cleared, s1, drive)
        else if not (is_ok (or_status drive read)) || not (who == expected_whoami)
        then (known, s2, imu_error)
        else if not (is_ok configured)
        then (known, s3, configured)
        else if not (is_ok status)
        then (known, s4, status)
        else (record known { ready = true }, s4, imu_ok)

    unfoldable pub get_data_ready : Icm45688 Float → State → State × ℤ × Bool
    get_data_ready dev s =
        let (s', status, drdy) = get_int_status s in
        if dev.ready then (s', status, is_ok status && drdy) else (s, imu_error, false)

    unfoldable pub update : Icm45688 Float → State → Icm45688 Float × State × ℤ
    update dev s =
        let (s', status, raw) = get_register_data s in
        if not dev.ready
        then (dev, s, imu_error)
        else if is_ok status
        then (update_attitude (measure dev raw), s', imu_ok)
        else (dev, s', status)
