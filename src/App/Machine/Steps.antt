-- ===== src/App/Machine/Steps.antt =====
-- Runs of the firmware, one step at a time.
use nuedc_control_freertos.Prelude.{List, [], ◌∷◌, All, Returns, Returns->>=}
use nuedc_control_freertos.Control.Floats.{Floats}
use nuedc_control_freertos.Imu.Service.{ImuBoard}
use nuedc_control_freertos.App.Machine.{Environment, Step, Whole, step, run}

-- any step is allowed
abbrev pub Anything : {F S : Type 0} → Step F S → Type 0
Anything s = Unit

pub All-Anything : {F S : Type 0} (ss : List (Step F S)) → All Anything ss
All-Anything [] = tt
All-Anything (s ∷ ss) = (tt, All-Anything ss)

module _ (fl : Floats) (hw : ImuBoard) (e : Environment fl.Float) where
  -- what allowed steps that return keep, runs of such steps that return keep
  pub run-keeps :
      (Allowed : Step fl.Float hw.vendor.State → Type 0) (P : Whole fl hw e → Type 0)
      → ((s : Step fl.Float hw.vendor.State) (m : Whole fl hw e)
          → Allowed s
          → P m
          → Returns (step fl hw e m s) P)
      → (ss : List (Step fl.Float hw.vendor.State)) (m : Whole fl hw e) → All Allowed ss
      → P m
      → Returns (run fl hw e m ss) P
  unfolding run
  run-keeps Allowed P keeps [] m allowed h = h
  run-keeps Allowed P keeps (s ∷ ss) m (first, rest) h =
      Returns->>= P P (step fl hw e m s) (λ m'. run fl hw e m' ss) (keeps s m first h)
        (λ m' h'. run-keeps Allowed P keeps ss m' rest h')
