-- ===== src/Control/Floats.antt =====
-- The floating-point numbers of the target's C compiler and of its mathematical library, as an
-- interface. A decimal constant `m / 10 ^ e` of the source is `lit m e`. No law is assumed of any
-- operation here; what a theorem needs is among its hypotheses.
use nuedc_control_freertos.Prelude.{ℕ, Bool, ℤ}

pub record Floats : Type 1 where
  pub Float : Type 0
  pub lit : ℕ → ℕ → Float
  pub add : Float → Float → Float
  pub sub : Float → Float → Float
  pub mul : Float → Float → Float
  pub div : Float → Float → Float
  pub neg : Float → Float
  pub fabs : Float → Float
  pub fmax : Float → Float → Float
  pub cos : Float → Float
  pub sin : Float → Float
  pub asin : Float → Float
  pub atan2 : Float → Float → Float
  pub sqrt : Float → Float
  pub lt : Float → Float → Bool
  pub le : Float → Float → Bool
  pub of_int : ℤ → Float
  pub to_int16 : Float → ℤ
  pub to_int32 : Float → ℤ
