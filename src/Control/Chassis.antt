-- ===== src/Control/Chassis.antt =====
-- control/chassis.c, in the build with encoders (`NUEDC_NO_ENCODER` is off by default). The chassis
-- drives the motor board and fetches the encoder counts, which are parts of the state here. An
-- angle is brought back into its range by whole turns, with fuel for `angle_fuel` turns each way:
-- an angle further away than that, or a NaN or an infinity, is outside the model.
pub mod Angle
pub mod Tick
pub mod Speed
use nuedc_control_freertos.Prelude.{
  ℕ, zero, suc, ◌+◌, Bool, true, false, ◌&&◌, Option, none, some, ◌++◌, ℤ, pos, ltb_ℤ, leb, u32,
  ◌==◌, to_i16, ◌+ℤ◌, if◌then◌else◌,
}
use nuedc_control_freertos.Platform.Calls.{Trace}
use nuedc_control_freertos.Motor.Board
use nuedc_control_freertos.Motor.Board.{Board}
use nuedc_control_freertos.Encoder
use nuedc_control_freertos.Encoder.{Encoders, Pins}
use nuedc_control_freertos.Control.Floats.{Floats}
use nuedc_control_freertos.Control.Pid
use nuedc_control_freertos.Control.Pid.{Pid}

pub record ControlPose2D (F : Type 0) : Type 0 where
  pub x : F
  pub y : F
  pub theta : F

pub record ControlChassisConfig (F : Type 0) : Type 0 where
  pub left_pulses_per_cm : F
  pub right_pulses_per_cm : F
  pub wheel_base_cm : F
  pub open_loop_cm_per_pwm_ms : F
  pub speed_out_limit : F
  pub forward_min_pulse : F

pub record ControlChassis (F : Type 0) : Type 0 where
  pub config : ControlChassisConfig F
  pub pid_left : Pid F
  pub pid_right : Pid F
  pub pose : ControlPose2D F
  pub target_speed_left : F
  pub target_speed_right : F
  pub measured_speed_left : F
  pub measured_speed_right : F
  pub segment_dist_cm : F
  pub dead_zone_left : F
  pub dead_zone_right : F
  pub debug_pwm_active : Bool
  pub debug_pwm_left : ℤ
  pub debug_pwm_right : ℤ
  pub debug_pwm_deadline_ms : ℕ

abbrev pub default_hold_ms : ℕ
default_hold_ms = 800

unfoldable pub set_debug_duty : {F : Type 0} → ControlChassis F → ℤ → ℤ → ℕ → ℕ → ControlChassis F
set_debug_duty c left_pwm right_pwm now_ms hold_ms = record c {
  debug_pwm_active = true;
  debug_pwm_left = left_pwm;
  debug_pwm_right = right_pwm;
  debug_pwm_deadline_ms = u32 (now_ms + (if hold_ms == 0 then default_hold_ms else hold_ms));
}

unfoldable pub clear_debug_duty : {F : Type 0} → ControlChassis F → ControlChassis F
clear_debug_duty c = record c {
  debug_pwm_active = false;
  debug_pwm_left = pos 0;
  debug_pwm_right = pos 0;
  debug_pwm_deadline_ms = 0;
}

unfoldable pub set_target_speeds : {F : Type 0} → ControlChassis F → F → F → ControlChassis F
set_target_speeds c left right = record c { target_speed_left = left; target_speed_right = right }

unfoldable pub set_dead_zone : {F : Type 0} → ControlChassis F → F → F → ControlChassis F
set_dead_zone c left right = record c { dead_zone_left = left; dead_zone_right = right }

-- the two calls of `BSP_Motor_SetDuty` that end each branch of a tick
unfoldable pub drive : ℕ → Board → ℤ → ℤ → Board × Trace
drive g_tick_ms b left right =
    let (b', t) = Board.set_duty g_tick_ms b 0 left in
    let (b'', t') = Board.set_duty g_tick_ms b' 1 right in (b'', t ++ t')

module _ (fl : Floats) where
  open fl use {
    Float, lit, add, sub, mul, div, neg, fabs, cos, sin, lt, le, of_int, to_int16, to_int32,
  }

  abbrev zero_f : Float
  zero_f = lit 0 0

  abbrev pub pi : Float
  pi = lit 314159265358979323846 20

  abbrev pub angle_fuel : ℕ
  angle_fuel = 1000

  -- `while (x > M_PI) x -= 2 * M_PI`. Where the source needs more turns than the fuel, or never ends,
  -- the angle reached is kept here.
  unfoldable pub wrap_down : ℕ → Float → Float
  wrap_down zero x = x
  wrap_down (suc fuel) x =
      let rest = wrap_down fuel (sub x (mul (lit 2 0) pi)) in if lt pi x then rest else x

  -- `while (x < -M_PI) x += 2 * M_PI`
  unfoldable pub wrap_up : ℕ → Float → Float
  wrap_up zero x = x
  wrap_up (suc fuel) x =
      let rest = wrap_up fuel (add x (mul (lit 2 0) pi)) in if lt x (neg pi) then rest else x

  unfoldable pub wrap_pi : Float → Float
  wrap_pi x = wrap_up angle_fuel (wrap_down angle_fuel x)

  -- a setting that is not positive is taken from the defaults
  unfoldable pub default_if_le_zero : Float → Float → Float
  default_if_le_zero x d = if le x zero_f then d else x

  unfoldable pub normalize_config : ControlChassisConfig Float → ControlChassisConfig Float
  unfolding default_if_le_zero
  normalize_config c = record {
    left_pulses_per_cm = default_if_le_zero c.left_pulses_per_cm (lit 7344 2);
    right_pulses_per_cm = default_if_le_zero c.right_pulses_per_cm (lit 7314 2);
    wheel_base_cm = default_if_le_zero c.wheel_base_cm (lit 135 1);
    open_loop_cm_per_pwm_ms = default_if_le_zero c.open_loop_cm_per_pwm_ms (lit 22 5);
    speed_out_limit = default_if_le_zero c.speed_out_limit (lit 1000 0);
    forward_min_pulse = if lt c.forward_min_pulse zero_f then lit 3 2 else c.forward_min_pulse;
  }

  unfoldable pub integrate_odometry : ControlChassis Float → Float → Float → ControlChassis Float
  integrate_odometry c ds_left_cm ds_right_cm =
      let ds = mul (lit 5 1) (add ds_left_cm ds_right_cm) in
      let dtheta = div (sub ds_right_cm ds_left_cm) c.config.wheel_base_cm in
      let mid = add c.pose.theta (mul (lit 5 1) dtheta) in
      record c {
        pose = record {
          x = add c.pose.x (mul ds (cos mid));
          y = add c.pose.y (mul ds (sin mid));
          theta = wrap_pi (add c.pose.theta dtheta);
        };
        segment_dist_cm = add c.segment_dist_cm (fabs ds);
      }

  -- A null configuration is all zeros before it is normalised.
  abbrev pub zero_config : ControlChassisConfig Float
  zero_config = record {
    left_pulses_per_cm = zero_f;
    right_pulses_per_cm = zero_f;
    wheel_base_cm = zero_f;
    open_loop_cm_per_pwm_ms = zero_f;
    speed_out_limit = zero_f;
    forward_min_pulse = zero_f;
  }

  unfoldable pub init :
      Pins
      → (ℕ → ℕ → ℕ)
      → Option (ControlChassisConfig Float)
      → Float
      → Float
      → Float
      → ControlChassis Float × Encoders
  unfolding normalize_config
  init pins read_pins config speed_kp speed_ki speed_kd =
      let cfg = normalize_config (elim config [ none ↦ zero_config | some c ↦ c ]) in
      let out = cfg.speed_out_limit in
      (
        record {
          config = cfg;
          pid_left = Pid.init fl speed_kp speed_ki speed_kd (neg out) out;
          pid_right = Pid.init fl speed_kp speed_ki speed_kd (neg out) out;
          pose = record { x = zero_f; y = zero_f; theta = zero_f };
          target_speed_left = zero_f;
          target_speed_right = zero_f;
          measured_speed_left = zero_f;
          measured_speed_right = zero_f;
          segment_dist_cm = zero_f;
          dead_zone_left = zero_f;
          dead_zone_right = zero_f;
          debug_pwm_active = false;
          debug_pwm_left = pos 0;
          debug_pwm_right = pos 0;
          debug_pwm_deadline_ms = 0;
        },
        Encoder.init pins read_pins,
      )

  unfoldable pub reset_odometry :
      Pins
      → (ℕ → ℕ → ℕ)
      → ControlChassis Float
      → Encoders
      → ControlPose2D Float
      → ControlChassis Float × Encoders
  reset_odometry pins read_pins c e pose = (
    record c { pose = pose; segment_dist_cm = zero_f },
    Encoder.reset pins read_pins (Encoder.reset pins read_pins e 0) 1,
  )

  unfoldable pub poll_fast_inputs : Pins → (ℕ → ℕ → ℕ) → Encoders → Encoders
  poll_fast_inputs pins read_pins e = Encoder.poll pins read_pins e

  unfoldable pub reset_segment_distance : ControlChassis Float → ControlChassis Float
  reset_segment_distance c = record c { segment_dist_cm = zero_f }

  -- the dead zone is added to a forward duty, up to the limit
  unfoldable pub feed_forward : ControlChassisConfig Float → Float → Float → ℤ → ℤ
  feed_forward config target dead_zone pwm =
      if lt config.forward_min_pulse target && ltb_ℤ (pos 0) pwm
      then (let ff = pwm +ℤ to_int32 dead_zone in
          let limit = to_int32 config.speed_out_limit in
          to_i16 (if ltb_ℤ limit ff then limit else ff))
      else pwm

  -- the measurement and the speed loops, which run in every tick: the chassis, the encoders, and
  -- the two duties
  unfoldable pub measure : ControlChassis Float → Encoders → ControlChassis Float × Encoders × ℤ × ℤ
  unfolding integrate_odometry
  measure c e =
      let (e', delta_left) = Encoder.get_delta e 0 in
      let (e'', delta_right) = Encoder.get_delta e' 1 in
      let meas_left = fabs (of_int delta_left) in
      let meas_right = fabs (of_int delta_right) in
      let moved =
        integrate_odometry c (div meas_left c.config.left_pulses_per_cm)
          (div meas_right c.config.right_pulses_per_cm) in
      let (pl, out_left) = Pid.update fl moved.pid_left moved.target_speed_left meas_left in
      let (pr, out_right) = Pid.update fl moved.pid_right moved.target_speed_right meas_right in
      (
        record moved {
          measured_speed_left = meas_left;
          measured_speed_right = meas_right;
          pid_left = pl;
          pid_right = pr;
        },
        e'',
        to_int16 out_left,
        to_int16 out_right,
      )

  -- what is driven, by the run flag, the debug duty and its deadline
  unfoldable pub actuate :
      ℕ → ControlChassis Float → Board → Bool → ℕ → ℤ → ℤ → ControlChassis Float × Board × Trace
  unfolding feed_forward drive
  actuate g_tick_ms c b run now_ms pwm_left pwm_right =
      if run
      then (let (b', t) =
            drive g_tick_ms b (feed_forward c.config c.target_speed_left c.dead_zone_left pwm_left)
              (feed_forward c.config c.target_speed_right c.dead_zone_right pwm_right) in
          (c, b', t))
      else (if c.debug_pwm_active
          then (if leb c.debug_pwm_deadline_ms now_ms
              then (let (b', t) = drive g_tick_ms b (pos 0) (pos 0) in (clear_debug_duty c, b', t))
              else (let (b', t) = drive g_tick_ms b c.debug_pwm_left c.debug_pwm_right in
                  (c, b', t)))
          else (let (b', t) = drive g_tick_ms b (pos 0) (pos 0) in (c, b', t)))

  unfoldable pub tick :
      ℕ
      → ControlChassis Float
      → Encoders
      → Board
      → Bool
      → ℕ
      → ControlChassis Float × Encoders × Board × Trace
  unfolding measure actuate
  tick g_tick_ms c e b run now_ms =
      let (c', e', pwm_left, pwm_right) = measure c e in
      let (c'', b', t) = actuate g_tick_ms c' b run now_ms pwm_left pwm_right in (c'', e', b', t)
