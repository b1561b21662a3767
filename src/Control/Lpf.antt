-- ===== src/Control/Lpf.antt =====
-- The first-order low-pass filter of common/filter.c, over an interface of floating-point
-- operations.
use nuedc_control_freertos.Prelude.{Bool, true, false, if◌then◌else◌}
use nuedc_control_freertos.Control.Floats.{Floats}

pub record Lpf (F : Type 0) : Type 0 where
  pub alpha : F
  pub y : F
  pub primed : Bool

module _ (fl : Floats) where
  open fl use {Float, lit, add, sub, mul}

  unfoldable pub init : Float → Lpf Float
  init alpha = record { alpha = alpha; y = lit 0 0; primed = false }

  -- the first value passes unchanged
  unfoldable pub update : Lpf Float → Float → Lpf Float × Float
  update f x =
      let y = add (mul f.alpha x) (mul (sub (lit 1 0) f.alpha) f.y) in
      if f.primed then (record f { y = y }, y) else (record f { y = x; primed = true }, x)
