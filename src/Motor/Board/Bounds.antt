-- ===== src/Motor/Board/Bounds.antt =====
-- What one call of bsp_motor.c does to the duties of the two motors, and the invariant of a
-- sequence of calls.
use nuedc_control_freertos.Prelude.{
  ℕ, ◌≤◌, List, [], ◌∷◌, ◌++◌, ◌≡◌, arith, ℤ, pos, ◌==◌, to_i16, neg_ℤ, ◌≤ℤ◌, if◌then◌else◌,
}
use nuedc_control_freertos.Platform.Calls.{Trace}
use nuedc_control_freertos.Platform.HBridge.Levels.{magnitude}
use nuedc_control_freertos.Motor.Device
use nuedc_control_freertos.Motor.Device.{DevMotor, DevMotorConfig, clamp_signed}
use nuedc_control_freertos.Motor.Board.{
  Board, clamp_pwm, forward_only, get_device, set_signed_duty, set_duty, brake, safety_tick,
}

-- Each motor's limit is that of the board, and its duty keeps to it.
pub record IsValid (b : Board) : Type 0 where
  pub left_limit : b.left.config.max_duty ≡ pos 1000
  pub right_limit : b.right.config.max_duty ≡ pos 1000
  pub left_bound : magnitude b.left.duty ≤ 1000
  pub right_bound : magnitude b.right.duty ≤ 1000

pub magnitude-clamp_pwm : (d : ℤ) → magnitude (clamp_pwm d) ≤ 1000
unfolding clamp_pwm
magnitude-clamp_pwm d = ground arith

-- A duty that the board has clamped passes the device's clamp unchanged.
pub clamp_signed-clamp_pwm :
    (c : DevMotorConfig) (d : ℤ)
    → c.max_duty ≡ pos 1000
    → clamp_signed c (clamp_pwm d) ≡ clamp_pwm d
unfolding clamp_signed clamp_pwm to_i16 neg_ℤ
clamp_signed-clamp_pwm c d h = ground arith

pub get_device-limit :
    (b : Board) (ch : ℕ) → IsValid b → (get_device b ch).config.max_duty ≡ pos 1000
unfolding get_device
get_device-limit b ch v = ground arith

pub clamp_pwm-forward_only : (d : ℤ) → clamp_pwm (forward_only d) ≡ forward_only d
unfolding clamp_pwm forward_only
clamp_pwm-forward_only d = ground arith

pub forward_only_bounds : (d : ℤ) → (pos 0 ≤ℤ forward_only d) × (forward_only d ≤ℤ pos 1000)
unfolding forward_only
forward_only_bounds d = ground arith

-- the other of the two motors
abbrev pub other : ℕ → ℕ
other ch = if ch == 0 then 1 else 0

-- A command gives the motor of its channel the clamped duty, leaves the other motor as it was and
-- records the time.
pub record Commanded (tick : ℕ) (b : Board) (ch : ℕ) (d : ℤ) (b' : Board) : Type 0 where
  pub given : (get_device b' ch).duty ≡ d
  pub kept : get_device b' (other ch) ≡ get_device b (other ch)
  pub stamped : b'.last_command_ms ≡ tick

pub set_signed_duty-Commanded :
    (tick : ℕ) (b : Board) (ch : ℕ) (duty : ℤ)
    → IsValid b
    → Commanded tick b ch (clamp_pwm duty) (set_signed_duty tick b ch duty).0
unfolding set_signed_duty Device.set_signed_duty
set_signed_duty-Commanded tick b ch duty v =
    ground (arith, clamp_signed-clamp_pwm (get_device b ch).config duty (get_device-limit b ch v))

-- In the same call `BSP_Motor_SetDuty` never asks for reverse: the duty given lies between 0 and
-- 1000, and equals the one asked for if that does.
pub set_duty-Commanded :
    (tick : ℕ) (b : Board) (ch : ℕ) (duty : ℤ)
    → IsValid b
    → Commanded tick b ch (forward_only duty) (set_duty tick b ch duty).0
unfolding set_duty
set_duty-Commanded tick b ch duty v =
    rw (clamp_pwm-forward_only duty) at (set_signed_duty-Commanded tick b ch (forward_only duty) v)

-- A call by the rest of the firmware, with the tick at which it is made.
pub data Op : Type 0 where
  command : ℕ → ℕ → ℤ → Op
  forward : ℕ → ℕ → ℤ → Op
  stop : ℕ → Op
  check : ℕ → Op

unfoldable pub apply : Board → Op → Board × Trace
apply b (command tick ch d) = set_signed_duty tick b ch d
apply b (forward tick ch d) = set_duty tick b ch d
apply b (stop ch) = brake b ch
apply b (check now_ms) = safety_tick b now_ms

unfoldable pub run : Board → List Op → Board × Trace
run b [] = (b, [])
run b (op ∷ ops) = let (b', t) = apply b op in let (b'', t') = run b' ops in (b'', t ++ t')

pub set_signed_duty-IsValid :
    (tick : ℕ) (b : Board) (ch : ℕ) (d : ℤ) → IsValid b → IsValid (set_signed_duty tick b ch d).0
unfolding set_signed_duty Device.set_signed_duty
set_signed_duty-IsValid tick b ch d v = ground (
  arith,
  clamp_signed-clamp_pwm (get_device b ch).config d (get_device-limit b ch v),
  magnitude-clamp_pwm d,
)

pub set_duty-IsValid :
    (tick : ℕ) (b : Board) (ch : ℕ) (d : ℤ) → IsValid b → IsValid (set_duty tick b ch d).0
unfolding set_duty
set_duty-IsValid tick b ch d v = set_signed_duty-IsValid tick b ch (forward_only d) v

pub brake-IsValid : (b : Board) (ch : ℕ) → IsValid b → IsValid (brake b ch).0
unfolding brake Device.brake
brake-IsValid b ch v = ground arith

pub clamp_signed-zero :
    (c : DevMotorConfig) → c.max_duty ≡ pos 1000 → clamp_signed c (pos 0) ≡ pos 0
unfolding clamp_signed to_i16 neg_ℤ
clamp_signed-zero c h = ground arith

pub safety_tick-IsValid : (b : Board) (now_ms : ℕ) → IsValid b → IsValid (safety_tick b now_ms).0
unfolding safety_tick Device.set_signed_duty
safety_tick-IsValid b now_ms v = ground (
  arith,
  clamp_signed-zero b.left.config v.left_limit,
  clamp_signed-zero b.right.config v.right_limit,
)

pub apply-IsValid : (b : Board) (op : Op) → IsValid b → IsValid (apply b op).0
unfolding apply set_duty
apply-IsValid b (command tick ch d) v = set_signed_duty-IsValid tick b ch d v
apply-IsValid b (forward tick ch d) v = set_signed_duty-IsValid tick b ch (forward_only d) v
apply-IsValid b (stop ch) v = brake-IsValid b ch v
apply-IsValid b (check now_ms) v = safety_tick-IsValid b now_ms v

-- Whatever the calls, no duty leaves the range from -1000 to 1000.
pub run-IsValid : (b : Board) (ops : List Op) → IsValid b → IsValid (run b ops).0
unfolding run
run-IsValid b [] v = v
run-IsValid b (op ∷ ops) v = run-IsValid (apply b op).0 ops (apply-IsValid b op v)
