-- ===== src/Motor/Board/Hardware.antt =====
-- The compare registers of the two motors against the duties that the firmware remembers.
use nuedc_control_freertos.Prelude.{
  ◌&&◌, ltb, sub_u32, ℕ, ◌≤◌, true, false, Option, some, List, [], ◌∷◌, ◌++◌, ◌≡◌, ◌≢◌, ◌⊎◌, inl,
  inr, refl, sym, ◌∙◌, arith, ℤ, pos, ◌==◌, Bool-cases,
}
use mathlib.Core.List.{append-nil}
use nuedc_control_freertos.Platform.Calls.{Trace, last_compare}
use nuedc_control_freertos.Platform.Calls.Laws.{
  last_compare-append, last_compare-set_self, last_compare-set_other,
}
use nuedc_control_freertos.Platform.Pwm.{DrvPwmChannel, set_duty_permille, duty_compare}
use nuedc_control_freertos.Platform.HBridge
use nuedc_control_freertos.Platform.HBridge.{clamp_duty}
use nuedc_control_freertos.Platform.HBridge.Levels.{
  magnitude, compare-set_signed_duty, compare-write_last,
}
use nuedc_control_freertos.Motor.Device
use nuedc_control_freertos.Motor.Device.{DevMotor, DevMotorConfig, clamp_signed}
use nuedc_control_freertos.Motor.Board.{
  motor_index, any_running, stop_both, command_timeout_ms, Board, set_signed_duty, set_duty, brake,
  safety_tick, forward_only, refresh_standby, clamp_pwm,
}
use nuedc_control_freertos.Motor.Board.Bounds.{
  IsValid, Op, command, forward, stop, check, apply, run, apply-IsValid, clamp_signed-clamp_pwm,
  clamp_signed-zero, magnitude-clamp_pwm,
}

abbrev pub pwm_of : DevMotor → DrvPwmChannel
pwm_of m = m.config.output.pwm

-- what a trace leaves on the compare register of a motor
abbrev pub register : DevMotor → Option ℕ → Trace → Option ℕ
register m acc t = last_compare (pwm_of m).timer (pwm_of m).channel acc t

-- Both timers are real, and the motors do not share a channel.
pub record IsApart (b : Board) : Type 0 where
  pub left_timer : (pwm_of b.left).timer ≢ 0
  pub right_timer : (pwm_of b.right).timer ≢ 0
  pub apart :
      ((pwm_of b.left).timer ≢ (pwm_of b.right).timer)
      ⊎ ((pwm_of b.left).channel ≢ (pwm_of b.right).channel)

-- A trace that works on the channel of a motor as one write of the size of a duty does.
abbrev Writes : DrvPwmChannel → ℤ → Trace → Type 0
Writes c d t =
    (timer channel : ℕ) (acc : Option ℕ)
    → last_compare timer channel acc t
      ≡ last_compare timer channel acc (set_duty_permille c (magnitude d))

clamp_duty_of_le : (d : ℤ) → magnitude d ≤ 1000 → clamp_duty d ≡ d
unfolding clamp_duty
clamp_duty_of_le d h = ground arith

coast-Writes : (m : DevMotor) → Writes (pwm_of m) (pos 0) (HBridge.coast m.config.output)
unfolding HBridge.coast
coast-Writes m timer channel acc =
    compare-write_last timer channel acc m.config.output false false 0

brake-Writes : (m : DevMotor) → Writes (pwm_of m) (pos 0) (HBridge.brake m.config.output)
unfolding HBridge.brake
brake-Writes m timer channel acc = compare-write_last timer channel acc m.config.output true true 0

device-Writes :
    (m : DevMotor) (duty d : ℤ)
    → clamp_signed m.config duty ≡ d
    → magnitude d ≤ 1000
    → Writes (pwm_of m) d (Device.set_signed_duty m duty).1
unfolding Device.set_signed_duty
device-Writes m duty d e h timer channel acc = ground (
  arith,
  clamp_duty_of_le d h,
  compare-set_signed_duty m.config.output d timer channel acc,
  coast-Writes m timer channel acc,
)

-- Two traces in a row, on one register.
register-append :
    (m : DevMotor) (acc : Option ℕ) (s t : Trace)
    → register m acc (s ++ t) ≡ register m (register m acc s) t
register-append m acc s t = last_compare-append (pwm_of m).timer (pwm_of m).channel acc s t

-- The registers hold the sizes of the duties.
pub record Agrees (b : Board) (l r : Option ℕ) : Type 0 where
  pub left_holds : l ≡ some (duty_compare (pwm_of b.left) (magnitude b.left.duty))
  pub right_holds : r ≡ some (duty_compare (pwm_of b.right) (magnitude b.right.duty))

-- what one operation keeps: the wiring, and the agreement over its own trace
abbrev Keeps : Board → Option ℕ → Option ℕ → Board × Trace → Type 0
Keeps b l r out =
    Agrees b l r
    → (pwm_of out.0.left ≡ pwm_of b.left)
      × (pwm_of out.0.right ≡ pwm_of b.right)
      × Agrees out.0 (register b.left l out.1) (register b.right r out.1)

module _ (b : Board) (w : IsApart b) (d : ℤ) (t : Trace) where
  -- A write to the left motor's channel sets its register and leaves the other.
  left-Writes :
      (l r : Option ℕ)
      → Writes (pwm_of b.left) d t
      → (register b.left l t ≡ some (duty_compare (pwm_of b.left) (magnitude d)))
        × (register b.right r t ≡ r)
  left-Writes l r h = (
    h _ _ l ∙ last_compare-set_self l (pwm_of b.left) (magnitude d) w.left_timer,
    h _ _ r ∙ last_compare-set_other _ _ r (pwm_of b.left) (magnitude d) (ground (arith, w.apart)),
  )

  right-Writes :
      (l r : Option ℕ)
      → Writes (pwm_of b.right) d t
      → (register b.left l t ≡ l)
        × (register b.right r t ≡ some (duty_compare (pwm_of b.right) (magnitude d)))
  right-Writes l r h = (
    h _ _ l ∙ last_compare-set_other _ _ l (pwm_of b.right) (magnitude d) w.apart,
    h _ _ r ∙ last_compare-set_self r (pwm_of b.right) (magnitude d) w.right_timer,
  )

-- The device's part of a command.
record DeviceSet (m : DevMotor) (d : ℤ) (out : DevMotor × Trace) : Type 0 where
  config : out.0.config ≡ m.config
  given : out.0.duty ≡ d
  writes : Writes (pwm_of m) d out.1

device-set :
    (m : DevMotor) (x d : ℤ)
    → clamp_signed m.config x ≡ d
    → magnitude d ≤ 1000
    → DeviceSet m d (Device.set_signed_duty m x)
device-set m x d e h = record {
  config = unfold Device.set_signed_duty in refl;
  given = unfold Device.set_signed_duty in e;
  writes = device-Writes m x d e h;
}

device-brake : (m : DevMotor) → DeviceSet m (pos 0) (Device.brake m)
unfolding Device.brake
device-brake m = record { config = refl; given = refl; writes = brake-Writes m }

-- A device's call, put back in its place, with the wiring and the agreement kept.
module _ (b : Board) (w : IsApart b) (d : ℤ) (out : DevMotor × Trace) (stamp : ℕ)
    (l r : Option ℕ) where
  put_left-Keeps :
      DeviceSet b.left d out
      → Keeps b l r (record b { left = out.0; last_command_ms = stamp }, out.1)
  put_left-Keeps s a =
      ground (
        arith,
        s.config,
        s.given,
        left-Writes b w d out.1 l r s.writes,
        a.left_holds,
        a.right_holds,
      )

  put_right-Keeps :
      DeviceSet b.right d out
      → Keeps b l r (record b { right = out.0; last_command_ms = stamp }, out.1)
  put_right-Keeps s a =
      ground (
        arith,
        s.config,
        s.given,
        right-Writes b w d out.1 l r s.writes,
        a.left_holds,
        a.right_holds,
      )

module _ (b : Board) (w : IsApart b) (v : IsValid b) (l r : Option ℕ) where
  set_signed_duty-Keeps : (tick ch : ℕ) (d : ℤ) → Keeps b l r (set_signed_duty tick b ch d)
  unfolding set_signed_duty refresh_standby
  set_signed_duty-Keeps tick ch d a = elim (Bool-cases (motor_index ch == 0)) [
    | inl e ↦
        rw (e, append-nil (Device.set_signed_duty b.left (clamp_pwm d)).1)
          (put_left-Keeps b w (clamp_pwm d) (Device.set_signed_duty b.left (clamp_pwm d)) tick l r
            (device-set b.left (clamp_pwm d) (clamp_pwm d)
              (clamp_signed-clamp_pwm b.left.config d v.left_limit) (magnitude-clamp_pwm d))
            a)
    | inr e ↦
        rw (e, append-nil (Device.set_signed_duty b.right (clamp_pwm d)).1)
          (put_right-Keeps b w (clamp_pwm d) (Device.set_signed_duty b.right (clamp_pwm d)) tick l r
            (device-set b.right (clamp_pwm d) (clamp_pwm d)
              (clamp_signed-clamp_pwm b.right.config d v.right_limit) (magnitude-clamp_pwm d))
            a)
  ]

  brake-Keeps : (ch : ℕ) → Keeps b l r (brake b ch)
  unfolding brake refresh_standby
  brake-Keeps ch a = elim (Bool-cases (motor_index ch == 0)) [
    | inl e ↦
        rw (e, append-nil (Device.brake b.left).1)
          (put_left-Keeps b w (pos 0) (Device.brake b.left) b.last_command_ms l r
            (device-brake b.left) a)
    | inr e ↦
        rw (e, append-nil (Device.brake b.right).1)
          (put_right-Keeps b w (pos 0) (Device.brake b.right) b.last_command_ms l r
            (device-brake b.right) a)
  ]

  stop_both-Keeps : Keeps b l r (stop_both b)
  unfolding stop_both refresh_standby
  stop_both-Keeps a =
      let tl = (Device.set_signed_duty b.left (pos 0)).1 in
      let tr = (Device.set_signed_duty b.right (pos 0)).1 in
      let sl =
        device-set b.left (pos 0) (pos 0) (clamp_signed-zero b.left.config v.left_limit)
          (omega arith) in
      let sr =
        device-set b.right (pos 0) (pos 0) (clamp_signed-zero b.right.config v.right_limit)
          (omega arith) in
      rw append-nil (
        ground (
          arith,
          sl.config,
          sl.given,
          sr.config,
          sr.given,
          left-Writes b w (pos 0) tl l r sl.writes,
          right-Writes b w (pos 0) tr (register b.left l tl) (register b.right r tl) sr.writes,
          register-append b.left l tl tr,
          register-append b.right r tl tr,
        ))

  safety_tick-Keeps : (now_ms : ℕ) → Keeps b l r (safety_tick b now_ms)
  unfolding safety_tick
  safety_tick-Keeps now_ms a =
      elim (Bool-cases
        (any_running b && ltb command_timeout_ms (sub_u32 now_ms b.last_command_ms))) [
          | inl e ↦ rw e (stop_both-Keeps a)
          | inr e ↦ rw e (unfold last_compare in (refl, refl, a))
        ]

  apply-Keeps : (op : Op) → Keeps b l r (apply b op)
  unfolding apply set_duty
  apply-Keeps (command tick ch d) = set_signed_duty-Keeps tick ch d
  apply-Keeps (forward tick ch d) = set_signed_duty-Keeps tick ch (forward_only d)
  apply-Keeps (stop ch) = brake-Keeps ch
  apply-Keeps (check now_ms) = safety_tick-Keeps now_ms

register-cong :
    (m n : DevMotor) (acc : Option ℕ) (t : Trace)
    → pwm_of m ≡ pwm_of n
    → register m acc t ≡ register n acc t
register-cong m n acc t e = cc

IsApart-step :
    (b b' : Board)
    → IsApart b
    → pwm_of b'.left ≡ pwm_of b.left
    → pwm_of b'.right ≡ pwm_of b.right
    → IsApart b'
IsApart-step b b' w p q = ground (arith, w.left_timer, w.right_timer, w.apart)

-- On a valid board whose two motors have PWM channels of their own, if the compare registers hold
-- the values of the duties that the firmware remembers, they go on holding them over any list of
-- motor calls.
pub run-Agrees :
    (b : Board) (ops : List Op) (l r : Option ℕ)
    → IsApart b
    → IsValid b
    → Agrees b l r
    → Agrees (run b ops).0 (register b.left l (run b ops).1) (register b.right r (run b ops).1)
unfolding run
run-Agrees b [] l r w v a = unfold last_compare in a
run-Agrees b (op ∷ ops) l r w v a =
    let (b', t) = apply b op in
    let t' = (run b' ops).1 in
    let k = apply-Keeps b w v l r op a in
    let next =
      run-Agrees b' ops (register b.left l t) (register b.right r t) (IsApart-step b b' w k.0 k.1)
        (apply-IsValid b op v) k.2 in
    record {
      left_holds =
          register-append b.left l t t'
          ∙ sym (register-cong b'.left b.left (register b.left l t) t' k.0)
          ∙ next.left_holds;
      right_holds =
          register-append b.right r t t'
          ∙ sym (register-cong b'.right b.right (register b.right r t) t' k.1)
          ∙ next.right_holds;
    }
