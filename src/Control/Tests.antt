-- ===== src/Control/Tests.antt =====
-- Examples of the regulator, the moving average and the chassis, with integers for the
-- floating-point numbers.
use nuedc_control_freertos.Prelude.{
  ℕ, ◌+◌, ◌/◌, ◌==◌, pos_part, neg_part, replicate, set-All, replicate-All, true, false, ◌≡◌, refl,
  arith, ℤ, pos, negsuc, ◌+ℤ◌, ◌-ℤ◌, ◌*ℤ◌, neg_ℤ, to_i32, ltb_ℤ, if◌then◌else◌, not,
}
use nuedc_control_freertos.Motor.Tests.{running, running-IsValid}
use nuedc_control_freertos.Encoder
use nuedc_control_freertos.Encoder.{Wheel, Encoders}
use nuedc_control_freertos.Control.Floats.{Floats}
use nuedc_control_freertos.Control.Pid
use nuedc_control_freertos.Control.Pid.{Pid, update, integrates, i_limit}
use nuedc_control_freertos.Control.Pid.Limits.{Between, update-Between}
use nuedc_control_freertos.Control.Sma
use nuedc_control_freertos.Control.Sma.{Sma}
use nuedc_control_freertos.Control.Sma.Sum
use nuedc_control_freertos.Control.Sma.Sum.{IsValid, IsSmall}
use nuedc_control_freertos.Control.Chassis
use nuedc_control_freertos.Control.Chassis.Angle.{Turning, IsWrapped, wrap_pi-IsWrapped}
use nuedc_control_freertos.Control.Chassis.{
  ControlChassis, zero_config, normalize_config, set_debug_duty, tick,
}
use nuedc_control_freertos.Control.Chassis.Speed.{Serves, speed_loop, tick-Serves}

abbrev magnitude : ℤ → ℤ
magnitude x = if ltb_ℤ x (pos 0) then neg_ℤ x else x

abbrev pub integers : Floats
integers = record {
  Float = ℤ;
  lit = λ m e. pos m;
  add = ◌+ℤ◌;
  sub = ◌-ℤ◌;
  mul = ◌*ℤ◌;
  div = λ x y. x;
  neg = neg_ℤ;
  fabs = magnitude;
  fmax = λ x y. if ltb_ℤ x y then y else x;
  cos = λ x. pos 1;
  sin = λ x. pos 0;
  asin = λ x. x;
  atan2 = λ x y. x;
  sqrt = λ x. x;
  lt = ltb_ℤ;
  le = λ x y. not (ltb_ℤ y x);
  of_int = λ x. x;
  to_int16 = λ x. x;
  to_int32 = λ x. x;
}

irreflexive : (x : ℤ) → ltb_ℤ x x ≡ false
irreflexive x = ground arith

abbrev pub regulator : Pid ℤ
regulator = Pid.init integers (pos 20) (pos 2) (pos 1) (negsuc 99) (pos 100)

update-Between_example :
    Between integers (negsuc 99) (pos 100) (update integers regulator (pos 7) (pos 3)).1
    × (integrates integers regulator ≡ true
        → Between integers
            (neg_ℤ (i_limit integers regulator))
            (i_limit integers regulator)
            (update integers regulator (pos 7) (pos 3)).0.integral)
unfolding Pid.init i_limit neg_ℤ
update-Between_example = update-Between integers irreflexive regulator (pos 7) (pos 3) refl refl

abbrev still_wheel : Wheel
still_wheel = record {
  last_state = 0;
  poll_state = 0;
  seen_mask = 1;
  change_count = 0;
  total = pos 0;
  reported = pos 0;
}

abbrev pub at_rest : Encoders
at_rest = record { left = still_wheel; right = still_wheel }

-- a chassis with no debug duty
abbrev pub resting : ControlChassis ℤ
resting = record {
  config = normalize_config integers (zero_config integers);
  pid_left = regulator;
  pid_right = regulator;
  pose = record { x = pos 0; y = pos 0; theta = pos 0 };
  target_speed_left = pos 0;
  target_speed_right = pos 0;
  measured_speed_left = pos 0;
  measured_speed_right = pos 0;
  segment_dist_cm = pos 0;
  dead_zone_left = pos 0;
  dead_zone_right = pos 0;
  debug_pwm_active = false;
  debug_pwm_left = pos 0;
  debug_pwm_right = pos 0;
  debug_pwm_deadline_ms = 0;
}

-- a debug duty of 200 and -300 at tick 50, with the default hold of 800 ms
abbrev pub debugged : ControlChassis ℤ
debugged = set_debug_duty resting (pos 200) (negsuc 299) 50 0

-- targets of 50 and 60, a dead zone of 7 on the left, and wheels that have turned 4 and 5 counts
abbrev driven : ControlChassis ℤ
driven = record resting {
  target_speed_left = pos 50;
  target_speed_right = pos 60;
  dead_zone_left = pos 7;
}

abbrev rolling : Encoders
rolling = record {
  left = record still_wheel { total = pos 4 };
  right = record still_wheel { total = pos 5 };
}

tick-Serves_example :
    let b = (tick integers 60 driven rolling running true 60).2 in
    Serves integers driven.config
      (pos 50)
      (pos 7)
      (speed_loop integers regulator (pos 50) (pos 4))
      b.left.duty
    × Serves integers driven.config
        (pos 60)
        (pos 0)
        (speed_loop integers regulator (pos 60) (pos 5))
        b.right.duty
    × (b.last_command_ms ≡ 60)
unfolding Encoder.get_delta to_i32 ◌-ℤ◌ ◌+ℤ◌
tick-Serves_example = tick-Serves integers 60 driven rolling running 60 running-IsValid

abbrev average : Sma
average = (Sma.update (Sma.init 4) (pos 8)).0

zero_IsSmall : IsSmall (pos 0)
unfolding ◌+ℤ◌
zero_IsSmall = (omega arith, omega arith)

average-IsValid : IsValid average
unfolding Sma.init Sma.update ◌-ℤ◌ ◌+ℤ◌ to_i32
average-IsValid = record {
  places = refl;
  small =
      set-All IsSmall (replicate 16 (pos 0)) 0 (pos 8)
        (replicate-All IsSmall 16 (pos 0) zero_IsSmall) (omega arith, omega arith);
  short = omega arith;
  inside = omega arith;
  summed = refl;
}

update-IsValid_example :
    IsValid (Sma.update average (negsuc 4)).0 × ((Sma.update average (negsuc 4)).1 ≡ pos 0)
unfolding Sma.init Sma.update Sma.div_len ◌-ℤ◌ ◌+ℤ◌ to_i32
update-IsValid_example =
    Sum.update-IsValid average (negsuc 4) average-IsValid (omega arith, omega arith)

-- A clock face with six hours: pi is 3 here, and the size of an angle is the turns that it takes.
abbrev clock_face : Floats
clock_face = record integers { lit = λ m e. if e == 20 then pos 3 else pos m }

abbrev face_size : ℤ → ℕ
face_size x = (pos_part x + neg_part x + 3) / 6

clock_face-Turning : Turning clock_face face_size
unfolding ◌-ℤ◌ ◌+ℤ◌ ◌*ℤ◌ neg_ℤ
clock_face-Turning = record {
  lands_down = λ x over. ground (arith, over);
  lands_up = λ x under. ground (arith, under);
  falls = λ x over small. ground (arith, over);
  rises = λ x under small. ground (arith, under);
}

wrap_pi-IsWrapped_example :
    IsWrapped clock_face face_size (pos 100) (Chassis.wrap_pi clock_face (pos 100))
wrap_pi-IsWrapped_example =
    wrap_pi-IsWrapped clock_face face_size clock_face-Turning (pos 100) (omega arith)
