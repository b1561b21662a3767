-- ===== src/Imu/YawCalibration.antt =====
-- modules/imu/imu_service.c: the calibration of the yaw scale by four laps each way.
pub mod Scale
use nuedc_control_freertos.Prelude.{
  ℕ, ◌+◌, Bool, true, false, ◌&&◌, ◌||◌, not, leb, u16, if◌then◌else◌,
}
use nuedc_control_freertos.Control.Floats.{Floats}
use nuedc_control_freertos.Imu.Device.{
  Icm45688, zero_f, one_f, reset_attitude, reset_sample_low_pass, set_gyro_scale,
}

pub data ImuYawCalState : Type 0 where
  idle wait_still wait_positive positive_active wait_negative negative_active complete failed :
      ImuYawCalState

pub record YawCalibration (F : Type 0) : Type 0 where
  pub state : ImuYawCalState
  pub settle_samples : ℕ
  pub phase_origin_deg : F
  pub positive_measured_deg : F
  pub negative_measured_deg : F
  pub positive_scale : F
  pub negative_scale : F
  pub result_scale : F
  pub previous_scale : F

-- the sensor and the calibration, which each step changes together
pub record Calibrated (F : Type 0) : Type 0 where
  pub imu : Icm45688 F
  pub cal : YawCalibration F

abbrev pub settle_wanted : ℕ
settle_wanted = 40

-- a calibration that a cancellation takes back: any but one not begun or complete
abbrev pub is_open : ImuYawCalState → Bool
is_open idle = false
is_open complete = false
is_open _ = true

module _ (fl : Floats) where
  open fl use {Float, lit, add, sub, mul, div, neg, lt, le}

  abbrev pub four_lap_deg : Float
  four_lap_deg = lit 14400 1

  abbrev pub motion_start_dps : Float
  motion_start_dps = lit 50 1

  -- `YAW_CAL_FOUR_LAP_DEG * YAW_CAL_CAPTURE_MIN_RATIO`
  abbrev pub capture_min : Float
  capture_min = mul four_lap_deg (lit 90 2)

  abbrev pub scale_min : Float
  scale_min = lit 85 2

  abbrev pub scale_max : Float
  scale_max = lit 115 2

  -- `memset` to 0
  abbrev pub cleared : YawCalibration Float
  cleared = record {
    state = idle;
    settle_samples = 0;
    phase_origin_deg = zero_f fl;
    positive_measured_deg = zero_f fl;
    negative_measured_deg = zero_f fl;
    positive_scale = zero_f fl;
    negative_scale = zero_f fl;
    result_scale = zero_f fl;
    previous_scale = zero_f fl;
  }

  unfoldable pub abs_float : Float → Float
  abs_float value = if lt value (zero_f fl) then neg value else value

  unfoldable pub scale_is_valid : Float → Bool
  scale_is_valid scale = le scale_min scale && le scale scale_max

  unfoldable pub set_scale_z : Icm45688 Float → Float → Icm45688 Float
  set_scale_z imu z = set_gyro_scale fl imu imu.gyro_scale_x imu.gyro_scale_y z

  unfoldable pub fail : Calibrated Float → Calibrated Float
  unfolding set_scale_z
  fail c = record {
    imu = reset_attitude fl (set_scale_z c.imu c.cal.previous_scale);
    cal = record c.cal { state = failed; result_scale = c.cal.previous_scale };
  }

  unfoldable pub start : Calibrated Float → Calibrated Float
  unfolding set_scale_z
  start c = record {
    imu = reset_attitude fl (reset_sample_low_pass fl (set_scale_z c.imu (one_f fl)));
    cal = record cleared {
      state = wait_still;
      result_scale = one_f fl;
      previous_scale = c.imu.gyro_scale_z;
    };
  }

  unfoldable pub finish : Calibrated Float → Calibrated Float
  unfolding abs_float scale_is_valid fail set_scale_z
  finish c =
      let cal = c.cal in
      let scale_sum = add cal.positive_scale cal.negative_scale in
      let scale_difference = abs_float (sub cal.positive_scale cal.negative_scale) in
      let result =
        div (mul (lit 20 1) four_lap_deg)
          (sub cal.positive_measured_deg cal.negative_measured_deg) in
      let c' : Calibrated Float = record c { cal = record cal { result_scale = result } } in
      if not (scale_is_valid cal.positive_scale)
        || (not (scale_is_valid cal.negative_scale)
            || (le scale_sum (zero_f fl)
                || lt (lit 2 2) (div (mul (lit 20 1) scale_difference) scale_sum)))
      then fail c
      else if not (scale_is_valid result)
      then fail c'
      else record {
        imu = reset_attitude fl (set_scale_z c.imu result);
        cal = record c'.cal { phase_origin_deg = zero_f fl; state = complete };
      }

  abbrev pub settle : YawCalibration Float → ℕ → YawCalibration Float
  settle cal n = record cal { settle_samples = n }

  unfoldable pub on_wait_still : Calibrated Float → Calibrated Float
  on_wait_still c =
      let n = u16 (c.cal.settle_samples + 1) in
      if c.imu.stationary
      then (if leb settle_wanted n
          then record {
            imu = reset_attitude fl c.imu;
            cal = record c.cal {
              settle_samples = 0;
              phase_origin_deg = zero_f fl;
              state = wait_positive;
            };
          }
          else record c { cal = settle c.cal n })
      else record c { cal = settle c.cal 0 }

  -- the calibration with the yaw of the four positive laps
  abbrev pub positive_captured : Calibrated Float → Float → Calibrated Float
  positive_captured c phase_yaw_deg = record c {
    cal = record c.cal {
      settle_samples = u16 (c.cal.settle_samples + 1);
      positive_measured_deg = phase_yaw_deg;
      positive_scale = div four_lap_deg phase_yaw_deg;
    };
  }

  -- the calibration with the yaw of the four negative laps
  abbrev pub negative_captured : Calibrated Float → Float → Calibrated Float
  negative_captured c phase_yaw_deg = record c {
    cal = record c.cal {
      settle_samples = u16 (c.cal.settle_samples + 1);
      negative_measured_deg = phase_yaw_deg;
      negative_scale = div (neg four_lap_deg) phase_yaw_deg;
    };
  }

  unfoldable pub on_positive_active : Calibrated Float → Float → Calibrated Float
  unfolding scale_is_valid fail
  on_positive_active c phase_yaw_deg =
      let n = u16 (c.cal.settle_samples + 1) in
      let captured = positive_captured c phase_yaw_deg in
      if c.imu.stationary && le capture_min phase_yaw_deg
      then (if leb settle_wanted n
          then (if not (scale_is_valid captured.cal.positive_scale)
              then fail captured
              else record captured {
                cal = record captured.cal {
                  phase_origin_deg = c.imu.yaw_deg;
                  settle_samples = 0;
                  state = wait_negative;
                };
              })
          else record c { cal = settle c.cal n })
      else record c { cal = settle c.cal 0 }

  unfoldable pub on_negative_active : Calibrated Float → Float → Calibrated Float
  unfolding finish
  on_negative_active c phase_yaw_deg =
      let n = u16 (c.cal.settle_samples + 1) in
      if c.imu.stationary && le phase_yaw_deg (neg capture_min)
      then (if leb settle_wanted n
          then finish (negative_captured c phase_yaw_deg)
          else record c { cal = settle c.cal n })
      else record c { cal = settle c.cal 0 }

  abbrev pub set_state : Calibrated Float → ImuYawCalState → Calibrated Float
  set_state c s = record c { cal = record c.cal { state = s } }

  -- the cases of the state
  unfoldable pub on_state : ImuYawCalState → Calibrated Float → Float → Calibrated Float
  unfolding on_wait_still on_positive_active on_negative_active
  on_state wait_still c phase = on_wait_still c
  on_state wait_positive c phase =
      if le motion_start_dps c.imu.gz_dps then set_state c positive_active else c
  on_state positive_active c phase = on_positive_active c phase
  on_state wait_negative c phase =
      if le c.imu.gz_dps (neg motion_start_dps) then set_state c negative_active else c
  on_state negative_active c phase = on_negative_active c phase
  on_state idle c phase = c
  on_state complete c phase = c
  on_state failed c phase = c

  unfoldable pub update : Calibrated Float → Calibrated Float
  unfolding on_state
  update c = on_state c.cal.state c (sub c.imu.yaw_deg c.cal.phase_origin_deg)

  unfoldable pub cancel : Calibrated Float → Calibrated Float
  unfolding set_scale_z
  cancel c = record {
    imu = reset_attitude fl (
        if is_open c.cal.state && lt (zero_f fl) c.cal.previous_scale
        then set_scale_z c.imu c.cal.previous_scale
        else c.imu);
    cal = cleared;
  }

  -- the two request flags, a cancellation first
  unfoldable pub service_requests : Bool → Bool → Calibrated Float → Calibrated Float
  unfolding cancel start
  service_requests cancel_requested start_requested c =
      let c' = if cancel_requested then cancel c else c in if start_requested then start c' else c'
