-- ===== src/Imu/Device.antt =====
-- modules/imu/device/dev_icm45688.c: the handle of the sensor, its settings and its resets. The
-- vendor's part of the handle is a state of its own, in Imu.Sample.
use nuedc_control_freertos.Prelude.{ℕ, Bool, true, false, ◌&&◌, not, ◌==◌, if◌then◌else◌}
use nuedc_control_freertos.Platform.Spi.{DrvSpiBus}
use nuedc_control_freertos.Control.Floats.{Floats}

pub data AttitudeMode : Type 0 where
  complementary mahony_6axis : AttitudeMode

abbrev pub is_mahony : AttitudeMode → Bool
is_mahony complementary = false
is_mahony mahony_6axis = true

pub record Icm45688 (F : Type 0) : Type 0 where
  pub bus : DrvSpiBus
  pub ready : Bool
  pub last_who_am_i : ℕ
  pub stationary : Bool
  pub gyro_bias_auto_update : Bool
  pub sample_lpf_initialized : Bool
  pub gyro_bias_stationary_samples : ℕ
  pub accel_fsr_g : F
  pub gyro_fsr_dps : F
  pub gyro_bias_x_dps : F
  pub gyro_bias_y_dps : F
  pub gyro_bias_z_dps : F
  pub gyro_scale_x : F
  pub gyro_scale_y : F
  pub gyro_scale_z : F
  pub stationary_gyro_threshold_dps : F
  pub stationary_accel_threshold_g : F
  pub gyro_bias_learning_rate : F
  pub accel_lpf_cutoff_hz : F
  pub gyro_lpf_cutoff_hz : F
  pub filter_dt_s : F
  pub filter_alpha : F
  pub attitude_mode : AttitudeMode
  pub accel_trust_window_g : F
  pub accel_rejection_threshold_sq : F
  pub mahony_kp : F
  pub mahony_ki : F
  pub mahony_integral_x : F
  pub mahony_integral_y : F
  pub mahony_integral_z : F
  pub quat_w : F
  pub quat_x : F
  pub quat_y : F
  pub quat_z : F
  pub stationary_hold_samples : ℕ
  pub stationary_sample_count : ℕ
  pub ax_g : F
  pub ay_g : F
  pub az_g : F
  pub gx_dps : F
  pub gy_dps : F
  pub gz_dps : F
  pub temp_c : F
  pub pitch_deg : F
  pub roll_deg : F
  pub yaw_deg : F

module _ (fl : Floats) where
  open fl use {Float, lit, mul, div, neg, sin, cos, add, sub, lt, le}

  abbrev pub zero_f : Float
  zero_f = lit 0 0

  abbrev pub one_f : Float
  one_f = lit 1 0

  abbrev pub deg_to_rad : Float
  deg_to_rad = lit 174532925 10

  abbrev pub rad_to_deg : Float
  rad_to_deg = lit 572957795 7

  unfoldable pub clampf_local : Float → Float → Float → Float
  clampf_local value min_value max_value =
      if lt value min_value then min_value else if lt max_value value then max_value else value

  unfoldable pub reset_attitude : Icm45688 Float → Icm45688 Float
  reset_attitude dev = record dev {
    pitch_deg = zero_f;
    roll_deg = zero_f;
    yaw_deg = zero_f;
    mahony_integral_x = zero_f;
    mahony_integral_y = zero_f;
    mahony_integral_z = zero_f;
    quat_w = one_f;
    quat_x = zero_f;
    quat_y = zero_f;
    quat_z = zero_f;
  }

  unfoldable pub clear_measurements : Icm45688 Float → Icm45688 Float
  unfolding reset_attitude
  clear_measurements dev = reset_attitude (record dev {
    ax_g = zero_f;
    ay_g = zero_f;
    az_g = zero_f;
    gx_dps = zero_f;
    gy_dps = zero_f;
    gz_dps = zero_f;
    temp_c = zero_f;
    pitch_deg = zero_f;
    roll_deg = zero_f;
    yaw_deg = zero_f;
    stationary = false;
    stationary_sample_count = 0;
    gyro_bias_stationary_samples = 0;
    sample_lpf_initialized = false;
  })

  unfoldable pub init_attitude_defaults : Icm45688 Float → Icm45688 Float
  unfolding reset_attitude
  init_attitude_defaults dev = reset_attitude (record dev {
    filter_dt_s = div one_f (lit 200 0);
    filter_alpha = lit 98 2;
    attitude_mode = complementary;
    stationary_gyro_threshold_dps = lit 15 1;
    stationary_accel_threshold_g = lit 8 2;
    stationary_hold_samples = 5;
    gyro_bias_auto_update = false;
    gyro_bias_learning_rate = lit 10 4;
    gyro_scale_x = one_f;
    gyro_scale_y = one_f;
    gyro_scale_z = one_f;
    accel_lpf_cutoff_hz = zero_f;
    gyro_lpf_cutoff_hz = zero_f;
    accel_trust_window_g = zero_f;
    accel_rejection_threshold_sq = zero_f;
    mahony_kp = lit 20 1;
    mahony_ki = zero_f;
  })

  -- `memset` to 0, with the bus that was handed over
  abbrev pub zeroed : DrvSpiBus → Icm45688 Float
  zeroed bus = record {
    bus = bus;
    ready = false;
    last_who_am_i = 0;
    stationary = false;
    gyro_bias_auto_update = false;
    sample_lpf_initialized = false;
    gyro_bias_stationary_samples = 0;
    accel_fsr_g = zero_f;
    gyro_fsr_dps = zero_f;
    gyro_bias_x_dps = zero_f;
    gyro_bias_y_dps = zero_f;
    gyro_bias_z_dps = zero_f;
    gyro_scale_x = zero_f;
    gyro_scale_y = zero_f;
    gyro_scale_z = zero_f;
    stationary_gyro_threshold_dps = zero_f;
    stationary_accel_threshold_g = zero_f;
    gyro_bias_learning_rate = zero_f;
    accel_lpf_cutoff_hz = zero_f;
    gyro_lpf_cutoff_hz = zero_f;
    filter_dt_s = zero_f;
    filter_alpha = zero_f;
    attitude_mode = complementary;
    accel_trust_window_g = zero_f;
    accel_rejection_threshold_sq = zero_f;
    mahony_kp = zero_f;
    mahony_ki = zero_f;
    mahony_integral_x = zero_f;
    mahony_integral_y = zero_f;
    mahony_integral_z = zero_f;
    quat_w = zero_f;
    quat_x = zero_f;
    quat_y = zero_f;
    quat_z = zero_f;
    stationary_hold_samples = 0;
    stationary_sample_count = 0;
    ax_g = zero_f;
    ay_g = zero_f;
    az_g = zero_f;
    gx_dps = zero_f;
    gy_dps = zero_f;
    gz_dps = zero_f;
    temp_c = zero_f;
    pitch_deg = zero_f;
    roll_deg = zero_f;
    yaw_deg = zero_f;
  }

  -- The handle; the deselection of the bus is `Platform.Spi.deselect`.
  unfoldable pub init_handle_spi : DrvSpiBus → Icm45688 Float
  unfolding init_attitude_defaults
  init_handle_spi bus =
      init_attitude_defaults
        (record (zeroed bus) { accel_fsr_g = lit 160 1; gyro_fsr_dps = lit 10000 1 })

  unfoldable pub set_filter : Icm45688 Float → Float → Float → Icm45688 Float
  set_filter dev dt_s alpha = record dev {
    filter_dt_s = if lt zero_f dt_s then dt_s else dev.filter_dt_s;
    filter_alpha = if le zero_f alpha && le alpha one_f then alpha else dev.filter_alpha;
  }

  unfoldable pub set_sample_low_pass : Icm45688 Float → Float → Float → Icm45688 Float
  set_sample_low_pass dev accel_cutoff_hz gyro_cutoff_hz = record dev {
    accel_lpf_cutoff_hz = if lt zero_f accel_cutoff_hz then accel_cutoff_hz else zero_f;
    gyro_lpf_cutoff_hz = if lt zero_f gyro_cutoff_hz then gyro_cutoff_hz else zero_f;
  }

  unfoldable pub reset_sample_low_pass : Icm45688 Float → Icm45688 Float
  reset_sample_low_pass dev = record dev { sample_lpf_initialized = false }

  unfoldable pub quat_from_euler : Icm45688 Float → Icm45688 Float
  quat_from_euler dev =
      let half_roll = mul (mul dev.pitch_deg deg_to_rad) (lit 5 1) in
      let half_pitch = mul (mul dev.roll_deg deg_to_rad) (lit 5 1) in
      let half_yaw = mul (mul dev.yaw_deg deg_to_rad) (lit 5 1) in
      let cr = cos half_roll in
      let sr = sin half_roll in
      let cp = cos half_pitch in
      let sp = sin half_pitch in
      let cy = cos half_yaw in
      let sy = sin half_yaw in
      record dev {
        quat_w = add (mul (mul cr cp) cy) (mul (mul sr sp) sy);
        quat_x = sub (mul (mul sr cp) cy) (mul (mul cr sp) sy);
        quat_y = add (mul (mul cr sp) cy) (mul (mul sr cp) sy);
        quat_z = sub (mul (mul cr cp) sy) (mul (mul sr sp) cy);
      }

  unfoldable pub set_attitude_mode : Icm45688 Float → AttitudeMode → Icm45688 Float
  unfolding quat_from_euler
  set_attitude_mode dev mode =
      let dev' =
        if not (is_mahony dev.attitude_mode) && is_mahony mode then quat_from_euler dev else dev in
      record dev' { attitude_mode = mode }

  unfoldable pub set_accel_trust_window : Icm45688 Float → Float → Icm45688 Float
  set_accel_trust_window dev max_accel_error_g = record dev {
    accel_trust_window_g = if lt zero_f max_accel_error_g then max_accel_error_g else zero_f;
  }

  unfoldable pub set_accel_rejection : Icm45688 Float → Float → Icm45688 Float
  unfolding clampf_local
  set_accel_rejection dev rejection_angle_deg =
      let angle = clampf_local rejection_angle_deg zero_f (lit 900 1) in
      let half_sine = mul (lit 5 1) (sin (mul angle deg_to_rad)) in
      if le rejection_angle_deg zero_f
      then record dev { accel_rejection_threshold_sq = zero_f }
      else record dev { accel_rejection_threshold_sq = mul half_sine half_sine }

  unfoldable pub set_mahony_gains : Icm45688 Float → Float → Float → Icm45688 Float
  set_mahony_gains dev kp ki = record dev {
    mahony_kp = if le zero_f kp then kp else dev.mahony_kp;
    mahony_ki = if le zero_f ki then ki else dev.mahony_ki;
  }

  unfoldable pub get_quaternion : Icm45688 Float → Float × Float × Float × Float
  get_quaternion dev = (dev.quat_w, dev.quat_x, dev.quat_y, dev.quat_z)

  unfoldable pub set_gyro_bias : Icm45688 Float → Float → Float → Float → Icm45688 Float
  set_gyro_bias dev gx_bias_dps gy_bias_dps gz_bias_dps = record dev {
    gyro_bias_x_dps = gx_bias_dps;
    gyro_bias_y_dps = gy_bias_dps;
    gyro_bias_z_dps = gz_bias_dps;
    gyro_bias_stationary_samples = 0;
  }

  unfoldable pub set_gyro_scale : Icm45688 Float → Float → Float → Float → Icm45688 Float
  set_gyro_scale dev gx_scale gy_scale gz_scale = record dev {
    gyro_scale_x = if lt zero_f gx_scale then gx_scale else dev.gyro_scale_x;
    gyro_scale_y = if lt zero_f gy_scale then gy_scale else dev.gyro_scale_y;
    gyro_scale_z = if lt zero_f gz_scale then gz_scale else dev.gyro_scale_z;
  }

  unfoldable pub set_stationary_detection : Icm45688 Float → Float → Float → ℕ → Icm45688 Float
  set_stationary_detection dev gyro_threshold_dps accel_threshold_g hold_samples = record dev {
    stationary_gyro_threshold_dps =
        if lt zero_f gyro_threshold_dps
        then gyro_threshold_dps
        else dev.stationary_gyro_threshold_dps;
    stationary_accel_threshold_g =
        if le zero_f accel_threshold_g then accel_threshold_g else dev.stationary_accel_threshold_g;
    stationary_hold_samples = if hold_samples == 0 then 1 else hold_samples;
    stationary = false;
    stationary_sample_count = 0;
    gyro_bias_stationary_samples = 0;
  }

  unfoldable pub set_gyro_bias_auto_update : Icm45688 Float → Bool → Float → Icm45688 Float
  set_gyro_bias_auto_update dev enable learning_rate = record dev {
    gyro_bias_auto_update = enable;
    gyro_bias_stationary_samples = 0;
    gyro_bias_learning_rate =
        if le zero_f learning_rate && le learning_rate one_f
        then learning_rate
        else dev.gyro_bias_learning_rate;
  }
