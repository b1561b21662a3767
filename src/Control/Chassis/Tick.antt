-- ===== src/Control/Chassis/Tick.antt =====
-- What a tick of the chassis does to the motors.
use nuedc_control_freertos.Prelude.{
  ℕ, Bool, true, false, ◌&&◌, not, Bool-cases, inl, inr, ◌≡◌, ◌∙◌, ap, arith, ℤ, pos, leb,
  if◌then◌else◌, refl,
}
use nuedc_control_freertos.Motor.Board
use nuedc_control_freertos.Motor.Board.{Board, forward_only}
use nuedc_control_freertos.Motor.Board.Bounds.{IsValid, set_duty-Commanded, set_duty-IsValid}
use nuedc_control_freertos.Motor.Board.Safety.{IsStopped}
use nuedc_control_freertos.Encoder.{Encoders}
use nuedc_control_freertos.Control.Floats.{Floats}
use nuedc_control_freertos.Control.Chassis.{
  ControlChassis, clear_debug_duty, drive, feed_forward, integrate_odometry, measure, actuate, tick,
}

-- Both motors were given a forward duty now: the ones asked for, clamped.
pub record Drives (g_tick_ms : ℕ) (left right : ℤ) (b : Board) : Type 0 where
  pub valid : IsValid b
  pub on_left : b.left.duty ≡ forward_only left
  pub on_right : b.right.duty ≡ forward_only right
  pub stamped : b.last_command_ms ≡ g_tick_ms

pub drive-Drives :
    (g_tick_ms : ℕ) (b : Board) (left right : ℤ)
    → IsValid b
    → Drives g_tick_ms left right (drive g_tick_ms b left right).0
unfolding drive Board.get_device
drive-Drives g_tick_ms b left right v =
    let (b', t) = Board.set_duty g_tick_ms b 0 left in
    let v' = set_duty-IsValid g_tick_ms b 0 left v in
    let first = set_duty-Commanded g_tick_ms b 0 left v in
    let second = set_duty-Commanded g_tick_ms b' 1 right v' in
    record {
      valid = set_duty-IsValid g_tick_ms b' 1 right v';
      on_left = ground (arith, first.given, second.kept);
      on_right = ground (arith, second.given);
      stamped = second.stamped;
    }

-- the debug duty is asked for and its deadline is still ahead
abbrev pub is_debug_live : {F : Type 0} → ControlChassis F → ℕ → Bool
is_debug_live c now_ms = c.debug_pwm_active && not (leb c.debug_pwm_deadline_ms now_ms)

-- the debug duties while they are live
abbrev pub debug_left : {F : Type 0} → ControlChassis F → ℕ → ℤ
debug_left c now_ms = if is_debug_live c now_ms then c.debug_pwm_left else pos 0

abbrev pub debug_right : {F : Type 0} → ControlChassis F → ℕ → ℤ
debug_right c now_ms = if is_debug_live c now_ms then c.debug_pwm_right else pos 0

forward_only-zero : forward_only (pos 0) ≡ pos 0
unfolding forward_only
forward_only-zero = refl

module _ (fl : Floats) where
  open fl use {Float}

  -- The two duties that a mode asks of the board, given those of the speed loops.
  abbrev pub wanted : ControlChassis Float → Bool → ℕ → ℤ → ℤ → ℤ × ℤ
  wanted c run now_ms pwm_left pwm_right =
      if run
      then (
        feed_forward fl c.config c.target_speed_left c.dead_zone_left pwm_left,
        feed_forward fl c.config c.target_speed_right c.dead_zone_right pwm_right,
      )
      else (debug_left c now_ms, debug_right c now_ms)

  -- The same for a tick: the encoders say what the speed loops measure.
  abbrev pub asked : ControlChassis Float → Encoders → Bool → ℕ → ℤ × ℤ
  asked c e run now_ms =
      let (c', e', pwm_left, pwm_right) = measure fl c e in wanted c run now_ms pwm_left pwm_right

  -- what is driven after the measurement, which leaves the modes as they were
  actuate-Drives :
      (g_tick_ms : ℕ) (c : ControlChassis Float) (b : Board) (run : Bool) (now_ms : ℕ) (pl pr : ℤ)
      → IsValid b
      → Drives g_tick_ms
          (wanted c run now_ms pl pr).0
          (wanted c run now_ms pl pr).1
          (actuate fl g_tick_ms c b run now_ms pl pr).1
  unfolding actuate
  actuate-Drives g_tick_ms c b true now_ms pl pr v = drive-Drives g_tick_ms b _ _ v
  actuate-Drives g_tick_ms c b false now_ms pl pr v = elim (Bool-cases c.debug_pwm_active) [
    | inr off ↦ rw off (drive-Drives g_tick_ms b _ _ v)
    | inl on ↦ elim (Bool-cases (leb c.debug_pwm_deadline_ms now_ms)) [
      | inl late ↦ rw (on, late) (drive-Drives g_tick_ms b _ _ v)
      | inr live ↦ rw (on, live) (drive-Drives g_tick_ms b _ _ v)
    ]
  ]

  -- On a valid board, a tick gives both motors the clamped duties that its mode asks for, and
  -- records the time of the command.
  pub tick-Drives :
      (g_tick_ms : ℕ) (c : ControlChassis Float) (e : Encoders) (b : Board) (run : Bool)
      (now_ms : ℕ)
      → IsValid b
      → Drives g_tick_ms
          (asked c e run now_ms).0
          (asked c e run now_ms).1
          (tick fl g_tick_ms c e b run now_ms).2
  unfolding tick measure integrate_odometry
  tick-Drives g_tick_ms c e b run now_ms v =
      let (c', e', pwm_left, pwm_right) = measure fl c e in
      actuate-Drives g_tick_ms c' b run now_ms pwm_left pwm_right v

  -- the same outside the run state, where the debug duties are what is asked for
  pub idle_tick-Drives :
      (g_tick_ms : ℕ) (c : ControlChassis Float) (e : Encoders) (b : Board) (run : Bool)
      (now_ms : ℕ) (left right : ℤ)
      → IsValid b
      → run ≡ false
      → debug_left c now_ms ≡ left
      → debug_right c now_ms ≡ right
      → Drives g_tick_ms left right (tick fl g_tick_ms c e b run now_ms).2
  idle_tick-Drives g_tick_ms c e b true now_ms left right v h hl hr = absurd (ground (arith, h))
  idle_tick-Drives g_tick_ms c e b false now_ms left right v h hl hr =
      let d = tick-Drives g_tick_ms c e b false now_ms v in
      record {
        valid = d.valid;
        on_left = d.on_left ∙ ap forward_only hl;
        on_right = d.on_right ∙ ap forward_only hr;
        stamped = d.stamped;
      }

  -- the debug duty after a tick that does not run
  actuate-debug :
      (g_tick_ms : ℕ) (c : ControlChassis Float) (b : Board) (now_ms : ℕ) (pl pr : ℤ)
      → is_debug_live c now_ms ≡ false
      → (actuate fl g_tick_ms c b false now_ms pl pr).0.debug_pwm_active ≡ false
  unfolding actuate clear_debug_duty
  actuate-debug g_tick_ms c b now_ms pl pr h = ground arith

  actuate-IsStopped :
      (g_tick_ms : ℕ) (c : ControlChassis Float) (b : Board) (now_ms : ℕ) (pl pr : ℤ)
      → IsValid b
      → is_debug_live c now_ms ≡ false
      → IsStopped (actuate fl g_tick_ms c b false now_ms pl pr).1
  actuate-IsStopped g_tick_ms c b now_ms pl pr v h =
      let d = actuate-Drives g_tick_ms c b false now_ms pl pr v in
      (d.on_left ∙ rw h forward_only-zero, d.on_right ∙ rw h forward_only-zero)

  -- On a valid board, a tick that neither runs nor has a live debug duty leaves both motors at
  -- duty 0, and no debug duty is active after it.
  pub tick-IsStopped :
      (g_tick_ms : ℕ) (c : ControlChassis Float) (e : Encoders) (b : Board) (now_ms : ℕ)
      → IsValid b
      → is_debug_live c now_ms ≡ false
      → IsStopped (tick fl g_tick_ms c e b false now_ms).2
        × ((tick fl g_tick_ms c e b false now_ms).0.debug_pwm_active ≡ false)
  unfolding tick measure integrate_odometry
  tick-IsStopped g_tick_ms c e b now_ms v h =
      let (c', e', pwm_left, pwm_right) = measure fl c e in
      (
        actuate-IsStopped g_tick_ms c' b now_ms pwm_left pwm_right v h,
        actuate-debug g_tick_ms c' b now_ms pwm_left pwm_right h,
      )
