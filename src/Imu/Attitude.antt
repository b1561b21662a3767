-- ===== src/Imu/Attitude.antt =====
-- modules/imu/device/dev_icm45688.c: the low-pass filter of the samples and the two attitude filters.
-- An angle is brought back into its range by whole turns, with fuel for `angle_fuel` turns each way:
-- an angle further away than that, or a NaN or an infinity, is outside the model.
pub mod Yaw
use nuedc_control_freertos.Prelude.{ℕ, zero, suc, Bool, true, false, ◌&&◌, ◌||◌, if◌then◌else◌}
use nuedc_control_freertos.Control.Floats.{Floats}
use nuedc_control_freertos.Imu.Device.{
  Icm45688, zero_f, one_f, deg_to_rad, rad_to_deg, clampf_local, reset_attitude, quat_from_euler,
}

-- the quaternion and the integral, as the Mahony filter passes them on
pub record Vector (F : Type 0) : Type 0 where
  pub x : F
  pub y : F
  pub z : F

module _ (fl : Floats) where
  open fl use {Float, lit, add, sub, mul, div, neg, fabs, sin, cos, asin, atan2, sqrt, lt, le}

  infixl 65 ◌+◌ ◌-◌
  infixl 70 ◌*◌ ◌/◌
  abbrev ◌+◌ : Float → Float → Float
  a + b = add a b

  abbrev ◌-◌ : Float → Float → Float
  a - b = sub a b

  abbrev ◌*◌ : Float → Float → Float
  a * b = mul a b

  abbrev ◌/◌ : Float → Float → Float
  a / b = div a b

  abbrev nil : Float
  nil = zero_f fl

  abbrev one : Float
  one = one_f fl

  abbrev half : Float
  half = lit 5 1

  abbrev two : Float
  two = lit 20 1

  abbrev pub min_norm_sq : Float
  min_norm_sq = lit 1 6

  abbrev pub yaw_lock_gyro_dps : Float
  yaw_lock_gyro_dps = lit 25 2

  unfoldable pub lpf_alpha : Float → Float → Float
  lpf_alpha cutoff_hz dt_s =
      let x = lit 6283185307 9 * cutoff_hz * dt_s in
      if le cutoff_hz nil || le dt_s nil then one else clampf_local fl (x / (one + x)) nil one

  unfoldable pub lpf_step : Float → Float → Float → Float → Float
  unfolding lpf_alpha
  lpf_step prev input cutoff_hz dt_s =
      let alpha = lpf_alpha cutoff_hz dt_s in prev + alpha * (input - prev)

  unfoldable pub yaw_should_lock : Icm45688 Float → Bool
  yaw_should_lock dev = dev.stationary && le (fabs dev.gz_dps) yaw_lock_gyro_dps

  abbrev pub angle_fuel : ℕ
  angle_fuel = 1000

  unfoldable pub wrap_down : ℕ → Float → Float
  wrap_down zero x = x
  wrap_down (suc fuel) x =
      let rest = wrap_down fuel (x - lit 3600 1) in if lt (lit 1800 1) x then rest else x

  unfoldable pub wrap_up : ℕ → Float → Float
  wrap_up zero x = x
  wrap_up (suc fuel) x =
      let rest = wrap_up fuel (x + lit 3600 1) in if le x (neg (lit 1800 1)) then rest else x

  unfoldable pub wrap_degrees_180 : Float → Float
  wrap_degrees_180 angle_deg = wrap_up angle_fuel (wrap_down angle_fuel angle_deg)

  unfoldable pub apply_sample_lowpass :
      Icm45688 Float → Vector Float → Vector Float → Icm45688 Float
  unfolding lpf_step
  apply_sample_lowpass dev a g =
      if dev.sample_lpf_initialized
      then record dev {
        ax_g = lpf_step dev.ax_g a.x dev.accel_lpf_cutoff_hz dev.filter_dt_s;
        ay_g = lpf_step dev.ay_g a.y dev.accel_lpf_cutoff_hz dev.filter_dt_s;
        az_g = lpf_step dev.az_g a.z dev.accel_lpf_cutoff_hz dev.filter_dt_s;
        gx_dps = lpf_step dev.gx_dps g.x dev.gyro_lpf_cutoff_hz dev.filter_dt_s;
        gy_dps = lpf_step dev.gy_dps g.y dev.gyro_lpf_cutoff_hz dev.filter_dt_s;
        gz_dps = lpf_step dev.gz_dps g.z dev.gyro_lpf_cutoff_hz dev.filter_dt_s;
      }
      else record dev {
        ax_g = a.x;
        ay_g = a.y;
        az_g = a.z;
        gx_dps = g.x;
        gy_dps = g.y;
        gz_dps = g.z;
        sample_lpf_initialized = true;
      }

  unfoldable pub accel_norm_sq : Icm45688 Float → Float
  accel_norm_sq dev = dev.ax_g * dev.ax_g + dev.ay_g * dev.ay_g + dev.az_g * dev.az_g

  -- whether the acceleration is trusted; the norm is `sqrt (accel_norm_sq dev)` where it is
  unfoldable pub accel_is_trusted : Icm45688 Float → Bool
  unfolding accel_norm_sq
  accel_is_trusted dev =
      let norm_sq = accel_norm_sq dev in
      if le norm_sq min_norm_sq
      then false
      else if le dev.accel_trust_window_g nil
      then true
      else le (fabs (sqrt norm_sq - one)) dev.accel_trust_window_g

  unfoldable pub euler_from_quat : Icm45688 Float → Icm45688 Float
  unfolding wrap_degrees_180 clampf_local
  euler_from_quat dev =
      let qw = dev.quat_w in
      let qx = dev.quat_x in
      let qy = dev.quat_y in
      let qz = dev.quat_z in
      let sin_pitch_y = two * (qw * qy - qz * qx) in
      let yaw_wrapped_deg =
        atan2 (two * (qw * qz + qx * qy)) (one - two * (qy * qy + qz * qz)) * rad_to_deg fl in
      let yaw_delta_deg = wrap_degrees_180 (yaw_wrapped_deg - wrap_degrees_180 dev.yaw_deg) in
      record dev {
        pitch_deg =
            atan2 (two * (qw * qx + qy * qz)) (one - two * (qx * qx + qy * qy)) * rad_to_deg fl;
        roll_deg = asin (clampf_local fl sin_pitch_y (neg one) one) * rad_to_deg fl;
        yaw_deg = dev.yaw_deg + yaw_delta_deg;
      }

  unfoldable pub update_complementary_attitude : Icm45688 Float → Icm45688 Float
  unfolding accel_is_trusted yaw_should_lock
  update_complementary_attitude dev =
      let alpha = dev.filter_alpha in
      let gyro_pitch = dev.pitch_deg + dev.gx_dps * dev.filter_dt_s in
      let gyro_roll = dev.roll_deg + dev.gy_dps * dev.filter_dt_s in
      let acc_pitch = atan2 dev.ay_g dev.az_g * rad_to_deg fl in
      let acc_roll =
        atan2 (neg dev.ax_g) (sqrt (dev.ay_g * dev.ay_g + dev.az_g * dev.az_g)) * rad_to_deg fl in
      let trusted = accel_is_trusted dev in
      record dev {
        pitch_deg = if trusted then alpha * gyro_pitch + (one - alpha) * acc_pitch else gyro_pitch;
        roll_deg = if trusted then alpha * gyro_roll + (one - alpha) * acc_roll else gyro_roll;
        yaw_deg =
            if yaw_should_lock dev then dev.yaw_deg else dev.yaw_deg + dev.gz_dps * dev.filter_dt_s;
      }

  -- the error between the measured and the estimated direction of gravity
  unfoldable pub half_error : Icm45688 Float → Vector Float
  unfolding accel_norm_sq
  half_error dev =
      let accel_norm = sqrt (accel_norm_sq dev) in
      let ax = dev.ax_g / accel_norm in
      let ay = dev.ay_g / accel_norm in
      let az = dev.az_g / accel_norm in
      let halfvx = dev.quat_x * dev.quat_z - dev.quat_w * dev.quat_y in
      let halfvy = dev.quat_w * dev.quat_x + dev.quat_y * dev.quat_z in
      let halfvz = dev.quat_w * dev.quat_w - half + dev.quat_z * dev.quat_z in
      record {
        x = ay * halfvz - az * halfvy;
        y = az * halfvx - ax * halfvz;
        z = ax * halfvy - ay * halfvx;
      }

  unfoldable pub feedback_trusted : Icm45688 Float → Vector Float → Bool
  feedback_trusted dev e =
      dev.stationary
      || (le dev.accel_rejection_threshold_sq nil
          || le (e.x * e.x + e.y * e.y + e.z * e.z) dev.accel_rejection_threshold_sq)

  -- the integral after the feedback, and the corrected rates
  unfoldable pub mahony_feedback : Icm45688 Float → Vector Float → Icm45688 Float × Vector Float
  unfolding half_error feedback_trusted accel_is_trusted
  mahony_feedback dev g =
      let e = half_error dev in
      let trusted = feedback_trusted dev e in
      let summed = record dev {
        mahony_integral_x = dev.mahony_integral_x + dev.mahony_ki * e.x * dev.filter_dt_s;
        mahony_integral_y = dev.mahony_integral_y + dev.mahony_ki * e.y * dev.filter_dt_s;
        mahony_integral_z = dev.mahony_integral_z + dev.mahony_ki * e.z * dev.filter_dt_s;
      } in
      let cleared = record dev {
        mahony_integral_x = nil;
        mahony_integral_y = nil;
        mahony_integral_z = nil;
      } in
      let integrates = trusted && lt nil dev.mahony_ki in
      let dev' = if integrates then summed else if le dev.mahony_ki nil then cleared else dev in
      let gx = if integrates then g.x + summed.mahony_integral_x else g.x in
      let gy = if integrates then g.y + summed.mahony_integral_y else g.y in
      let gz = if integrates then g.z + summed.mahony_integral_z else g.z in
      if accel_is_trusted dev
      then (
        dev',
        if trusted
            then record {
              x = gx + dev.mahony_kp * e.x;
              y = gy + dev.mahony_kp * e.y;
              z = gz + dev.mahony_kp * e.z;
            }
            else record { x = gx; y = gy; z = gz },
      )
      else (dev, g)

  -- the quaternion turned by the rates over one period, and normalised
  unfoldable pub mahony_rotate : Icm45688 Float → Vector Float → Icm45688 Float
  mahony_rotate dev g =
      let qw = dev.quat_w in
      let qx = dev.quat_x in
      let qy = dev.quat_y in
      let qz = dev.quat_z in
      let half_dt = half * dev.filter_dt_s in
      let half_angle_sq = (g.x * g.x + g.y * g.y + g.z * g.z) * half_dt * half_dt in
      let half_angle_pow4 = half_angle_sq * half_angle_sq in
      let delta_w = one - half * half_angle_sq + half_angle_pow4 * (one / lit 240 1) in
      let vector_scale =
        half_dt * (one - half_angle_sq * (one / lit 60 1) + half_angle_pow4 * (one / lit 1200 1)) in
      let delta_x = g.x * vector_scale in
      let delta_y = g.y * vector_scale in
      let delta_z = g.z * vector_scale in
      let w = qw * delta_w - qx * delta_x - qy * delta_y - qz * delta_z in
      let x = qw * delta_x + qx * delta_w + qy * delta_z - qz * delta_y in
      let y = qw * delta_y - qx * delta_z + qy * delta_w + qz * delta_x in
      let z = qw * delta_z + qx * delta_y - qy * delta_x + qz * delta_w in
      let norm_sq = w * w + x * x + y * y + z * z in
      let inv_norm = one / sqrt norm_sq in
      if lt min_norm_sq norm_sq
      then record dev {
        quat_w = w * inv_norm;
        quat_x = x * inv_norm;
        quat_y = y * inv_norm;
        quat_z = z * inv_norm;
      }
      else reset_attitude fl (record dev { quat_w = w; quat_x = x; quat_y = y; quat_z = z })

  -- the rates in radians, corrected by the feedback and held if the yaw is locked
  unfoldable pub mahony_rates : Icm45688 Float → Icm45688 Float × Vector Float
  unfolding mahony_feedback yaw_should_lock
  mahony_rates dev =
      let rates : Vector Float = record {
        x = dev.gx_dps * deg_to_rad fl;
        y = dev.gy_dps * deg_to_rad fl;
        z = dev.gz_dps * deg_to_rad fl;
      } in
      let (fed, g) = mahony_feedback dev rates in
      if yaw_should_lock dev
      then (record fed { mahony_integral_z = nil }, record g { z = nil })
      else (fed, g)

  -- the attitude before the yaw is held
  unfoldable pub mahony_turned : Icm45688 Float → Icm45688 Float
  unfolding mahony_rates mahony_rotate euler_from_quat
  mahony_turned dev = let (fed, g) = mahony_rates dev in euler_from_quat (mahony_rotate fed g)

  unfoldable pub update_mahony_attitude : Icm45688 Float → Icm45688 Float
  update_mahony_attitude dev =
      if yaw_should_lock dev
      then quat_from_euler fl (record (mahony_turned dev) { yaw_deg = dev.yaw_deg })
      else mahony_turned dev
