-- ===== src/Platform/HBridge/Levels.antt =====
-- The levels and the compare value that the H-bridge driver leaves on its pins and its channel.
use nuedc_control_freertos.Prelude.{
  ℕ, ◌+◌, ◌≤◌, Bool, true, false, not, Option, none, some, ◌++◌, ◌≡◌, ◌≢◌, ◌⊎◌, arith, ℤ, pos,
  pos_part, neg_part, neg_ℤ, ltb_ℤ, is_zero_ℤ, to_i16, wrap, IsI16, if◌then◌else◌,
}
use nuedc_control_freertos.Platform.Calls.{Trace, last_level, last_compare}
use nuedc_control_freertos.Platform.Calls.Laws.{
  last_level-append, last_compare-append, last_compare-write_raw, last_level-set_duty,
  last_level-write_self, last_level-write_other,
}
use nuedc_control_freertos.Platform.Gpio.{write_raw}
use nuedc_control_freertos.Platform.Pwm.{set_duty_permille}
use nuedc_control_freertos.Platform.HBridge.{
  DrvHBridgeMotor, clamp_duty, coast, wired_duty, set_signed_duty,
}

-- the size of a duty
abbrev pub magnitude : ℤ → ℕ
magnitude z = pos_part z + neg_part z

-- Both pins and the timer of the output stage are real, and its pins are two.
pub record IsWired (m : DrvHBridgeMotor) : Type 0 where
  pub port1 : m.in1.port ≢ 0
  pub port2 : m.in2.port ≢ 0
  pub apart : (m.in1.port ≢ m.in2.port) ⊎ (m.in1.pin ≢ m.in2.pin)
  pub timer : m.pwm.timer ≢ 0

-- What a trace leaves on the first and on the second pin.
abbrev pub levels : DrvHBridgeMotor → Trace → Option Bool × Option Bool
levels m t = (last_level m.in1.port m.in1.pin none t, last_level m.in2.port m.in2.pin none t)

-- A compare value followed by levels, or levels followed by a compare value.
pub levels-write :
    (m : DrvHBridgeMotor) (a b : Bool) (d : ℕ)
    → IsWired m
    → levels m (set_duty_permille m.pwm d ++ (write_raw m.in1 a ++ write_raw m.in2 b))
      ≡ (some a, some b)
levels-write m a b d w = ground (
  arith,
  last_level-append m.in1.port m.in1.pin none (set_duty_permille m.pwm d)
      (write_raw m.in1 a ++ write_raw m.in2 b),
  last_level-append m.in1.port m.in1.pin
      (last_level m.in1.port m.in1.pin none (set_duty_permille m.pwm d)) (write_raw m.in1 a)
      (write_raw m.in2 b),
  last_level-append m.in2.port m.in2.pin none (set_duty_permille m.pwm d)
      (write_raw m.in1 a ++ write_raw m.in2 b),
  last_level-append m.in2.port m.in2.pin
      (last_level m.in2.port m.in2.pin none (set_duty_permille m.pwm d)) (write_raw m.in1 a)
      (write_raw m.in2 b),
  last_level-write_self (last_level m.in1.port m.in1.pin none (set_duty_permille m.pwm d)) m.in1 a
      w.port1,
  last_level-write_self
      (last_level m.in2.port m.in2.pin
        (last_level m.in2.port m.in2.pin none (set_duty_permille m.pwm d)) (write_raw m.in1 a))
      m.in2 b w.port2,
  last_level-write_other m.in1.port m.in1.pin (some a) m.in2 b w.apart,
)

levels-drive :
    (m : DrvHBridgeMotor) (a b : Bool) (d : ℕ)
    → IsWired m
    → levels m (write_raw m.in1 a ++ (write_raw m.in2 b ++ set_duty_permille m.pwm d))
      ≡ (some a, some b)
levels-drive m a b d w = ground (
  arith,
  last_level-append m.in1.port m.in1.pin none (write_raw m.in1 a)
      (write_raw m.in2 b ++ set_duty_permille m.pwm d),
  last_level-append m.in1.port m.in1.pin (last_level m.in1.port m.in1.pin none (write_raw m.in1 a))
      (write_raw m.in2 b) (set_duty_permille m.pwm d),
  last_level-append m.in2.port m.in2.pin none (write_raw m.in1 a)
      (write_raw m.in2 b ++ set_duty_permille m.pwm d),
  last_level-append m.in2.port m.in2.pin (last_level m.in2.port m.in2.pin none (write_raw m.in1 a))
      (write_raw m.in2 b) (set_duty_permille m.pwm d),
  last_level-write_self none m.in1 a w.port1,
  last_level-write_self (last_level m.in2.port m.in2.pin none (write_raw m.in1 a)) m.in2 b w.port2,
  last_level-write_other m.in1.port m.in1.pin (some a) m.in2 b w.apart,
  last_level-set_duty m.in1.port m.in1.pin (some a) m.pwm d,
  last_level-set_duty m.in2.port m.in2.pin (some b) m.pwm d,
)

module _ (timer channel : ℕ) (acc : Option ℕ) (m : DrvHBridgeMotor) where
  -- Levels are no news on a compare register.
  pub compare-write_first :
      (a b : Bool) (d : ℕ)
      → last_compare timer channel acc
          (write_raw m.in1 a ++ (write_raw m.in2 b ++ set_duty_permille m.pwm d))
        ≡ last_compare timer channel acc (set_duty_permille m.pwm d)
  compare-write_first a b d = rw (
    last_compare-append timer channel acc (write_raw m.in1 a)
        (write_raw m.in2 b ++ set_duty_permille m.pwm d),
    last_compare-write_raw timer channel acc m.in1 a,
    last_compare-append timer channel acc (write_raw m.in2 b) (set_duty_permille m.pwm d),
    last_compare-write_raw timer channel acc m.in2 b,
  )

  pub compare-write_last :
      (a b : Bool) (d : ℕ)
      → last_compare timer channel acc
          (set_duty_permille m.pwm d ++ (write_raw m.in1 a ++ write_raw m.in2 b))
        ≡ last_compare timer channel acc (set_duty_permille m.pwm d)
  compare-write_last a b d =
      let c = last_compare timer channel acc (set_duty_permille m.pwm d) in
      rw (
        last_compare-append timer channel acc (set_duty_permille m.pwm d)
            (write_raw m.in1 a ++ write_raw m.in2 b),
        last_compare-append timer channel c (write_raw m.in1 a) (write_raw m.in2 b),
        last_compare-write_raw timer channel c m.in1 a,
        last_compare-write_raw timer channel c m.in2 b,
      )

-- the sense of rotation asked for: that of the duty, turned round by a negative wiring
abbrev pub runs_forward : DrvHBridgeMotor → ℤ → Bool
runs_forward m d = if ltb_ℤ m.direction (pos 0) then ltb_ℤ d (pos 0) else ltb_ℤ (pos 0) d

pub magnitude-clamp_duty : (d : ℤ) → magnitude (clamp_duty d) ≤ 1000
unfolding clamp_duty
magnitude-clamp_duty d = ground arith

clamp_duty-IsI16 : (d : ℤ) → IsI16 (clamp_duty d)
unfolding clamp_duty
clamp_duty-IsI16 d = ground arith

-- The sense is kept by the 16-bit negation, and so is the size.
wired_sense :
    (m : DrvHBridgeMotor) (d : ℤ)
    → magnitude d ≤ 1000
    → ltb_ℤ (pos 0) (wired_duty m d) ≡ runs_forward m d
unfolding wired_duty to_i16 neg_ℤ
wired_sense m d h = ground arith

wired_size :
    (m : DrvHBridgeMotor) (d : ℤ)
    → magnitude d ≤ 1000
    → wrap 65536 (if ltb_ℤ (pos 0) (wired_duty m d) then wired_duty m d else neg_ℤ (wired_duty m d))
      ≡ magnitude d
unfolding wired_duty to_i16 neg_ℤ
wired_size m d h = ground arith

module _ (m : DrvHBridgeMotor) (d : ℤ) where
  -- After a call the pins ask for the sense of the duty, or float at duty 0.
  pub levels-set_signed_duty :
      IsWired m
      → levels m (set_signed_duty m d) ≡ (
          if is_zero_ℤ (clamp_duty d)
          then (some false, some false)
          else (some (not (runs_forward m (clamp_duty d))), some (runs_forward m (clamp_duty d))))
  unfolding set_signed_duty coast
  levels-set_signed_duty w = ground (
    arith,
    wired_sense m (clamp_duty d) (magnitude-clamp_duty d),
    levels-write m false false 0 w,
    levels-drive m false true (wrap 65536 (wired_duty m (clamp_duty d))) w,
    levels-drive m true false (wrap 65536 (neg_ℤ (wired_duty m (clamp_duty d)))) w,
  )

  -- After a call the compare register holds the value of the duty's size.
  pub compare-set_signed_duty :
      (timer channel : ℕ) (acc : Option ℕ)
      → last_compare timer channel acc (set_signed_duty m d)
        ≡ last_compare timer channel acc (set_duty_permille m.pwm (magnitude (clamp_duty d)))
  unfolding set_signed_duty coast
  compare-set_signed_duty timer channel acc = ground (
    arith,
    magnitude-clamp_duty d,
    wired_size m (clamp_duty d) (magnitude-clamp_duty d),
    compare-write_last timer channel acc m false false 0,
    compare-write_first timer channel acc m false true (wrap 65536 (wired_duty m (clamp_duty d))),
    compare-write_first timer channel acc m true false
        (wrap 65536 (neg_ℤ (wired_duty m (clamp_duty d)))),
  )
