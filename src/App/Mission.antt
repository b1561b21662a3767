-- ===== src/App/Mission.antt =====
-- app/app_mission.c with the line tracker that it calls, in the round of the control task: the
-- tracker is updated in the run state alone. `values` and `marks` are the pins of the line sensor
-- while an update reads its values and its bits.
pub mod Lost
use nuedc_control_freertos.Prelude.{ℕ, List, [], ◌∷◌, ◌++◌, if◌then◌else◌}
use nuedc_control_freertos.Encoder.{Pins}
use nuedc_control_freertos.Control.Floats.{Floats}
use nuedc_control_freertos.Control.Chassis
use nuedc_control_freertos.Control.LineTracker
use nuedc_control_freertos.Control.LineTracker.{LineTracker}
use nuedc_control_freertos.App.{AppContext, Car, is_run, mission_tick, state_tick}

-- what a round of the control task reads
pub record Inputs : Type 0 where
  pub read_pins : ℕ → ℕ → ℕ
  pub values : ℕ → ℕ → ℕ
  pub marks : ℕ → ℕ → ℕ
  pub now : ℕ

module _ (fl : Floats) where
  -- `App_Mission_Tick`; its turn is of no account outside the run state
  unfoldable pub guide :
      Inputs
      → LineTracker fl.Float
      → AppContext fl.Float
      → LineTracker fl.Float × AppContext fl.Float
  guide i t ctx =
      let (t', turn) = LineTracker.update fl i.values i.marks t in
      if is_run ctx.state then (t', mission_tick fl turn ctx) else (t, mission_tick fl turn ctx)

  -- one round of the control task
  unfoldable pub guided_round :
      Pins → Inputs → Car fl.Float × LineTracker fl.Float → Car fl.Float × LineTracker fl.Float
  guided_round pins i (k, t) =
      let k' = state_tick fl i.now pins i.read_pins i.now k in
      let (t', ctx) = guide i t k'.ctx in
      let (c, e, b, calls) =
        Chassis.tick fl i.now ctx.chassis k'.encoders k'.board (is_run ctx.state) i.now in
      (
        record k' {
          ctx = record ctx { chassis = c };
          encoders = e;
          board = b;
          calls = k'.calls ++ calls;
        },
        t',
      )

  unfoldable pub rounds :
      Pins → List Inputs → Car fl.Float × LineTracker fl.Float → Car fl.Float × LineTracker fl.Float
  rounds pins [] s = s
  rounds pins (i ∷ is) s = rounds pins is (guided_round pins i s)
