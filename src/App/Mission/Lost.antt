-- ===== src/App/Mission/Lost.antt =====
-- The car while the line is lost.
use nuedc_control_freertos.Prelude.{true, false, List, [], ◌∷◌, ◌≡◌, refl, Bool-cases, inl, inr}
use nuedc_control_freertos.Encoder.{Pins}
use nuedc_control_freertos.Control.Floats.{Floats}
use nuedc_control_freertos.Control.Pid.{Pid}
use nuedc_control_freertos.Control.LineTracker
use nuedc_control_freertos.Control.LineTracker.{LineTracker}
use nuedc_control_freertos.Control.LineTracker.Lost.{Reading}
use nuedc_control_freertos.Motor.Board.{Board}
use nuedc_control_freertos.Control.Chassis
use nuedc_control_freertos.App.{Car, is_run, state_tick, control_round}
use nuedc_control_freertos.App.Mission.{Inputs, guide, guided_round}

abbrev pub reading : Inputs → Reading
reading i = (i.values, i.marks)

abbrev pub readings : List Inputs → List Reading
readings [] = []
readings (i ∷ is) = reading i ∷ readings is

-- the car runs, and no request is pending that ends the run
pub record IsSteady {F : Type 0} (k : Car F) : Type 0 where
  pub running : is_run k.ctx.state ≡ true
  pub unstopped : k.requests.stop_request ≡ false
  pub undisturbed : k.requests.duty_request_pending ≡ false

-- The turn and the targets of the wheels that follow it: `base` is 80 pulses, times 73.44 / 73.14 on
-- the left.
pub record Steers (fl : Floats) (turn : fl.Float) (k : Car fl.Float) : Type 0 where
  pub turned : k.ctx.line_turn ≡ turn
  pub left :
      k.ctx.chassis.target_speed_left
      ≡ fl.sub (fl.div (fl.mul (fl.lit 80 0) (fl.lit 7344 2)) (fl.lit 7314 2)) turn
  pub right : k.ctx.chassis.target_speed_right ≡ fl.add (fl.lit 80 0) turn

-- the side of the line by the sign of its bias
pub data Side : Type 0 where
  positive negative centre : Side

-- the line was seen last on a side
abbrev pub IsSeen : (fl : Floats) → Side → fl.Float → Type 0
IsSeen fl positive bias = fl.lt (fl.lit 0 0) bias ≡ true
IsSeen fl negative bias = (fl.lt (fl.lit 0 0) bias ≡ false) × (fl.lt bias (fl.lit 0 0) ≡ true)
IsSeen fl centre bias = (fl.lt (fl.lit 0 0) bias ≡ false) × (fl.lt bias (fl.lit 0 0) ≡ false)

-- 0.18 towards the side of the line
abbrev pub towards : (fl : Floats) → Side → fl.Float
towards fl positive = fl.lit 18 2
towards fl negative = fl.neg (fl.lit 18 2)
towards fl centre = fl.lit 0 0

-- a number that is neither below -40 nor above 40
pub record IsLimited (fl : Floats) (x : fl.Float) : Type 0 where
  pub above : fl.lt x (fl.neg (fl.lit 40 0)) ≡ false
  pub below : fl.lt (fl.lit 40 0) x ≡ false

module _ (fl : Floats) (pins : Pins) where
  -- a round with the tracker in it is a round with the turn that the tracker gives
  pub guided_round-control_round :
      (i : Inputs) (k : Car fl.Float) (t : LineTracker fl.Float)
      → (guided_round fl pins i (k, t)).0
        ≡ control_round fl pins i.read_pins (LineTracker.update fl i.values i.marks t).1 i.now k
  unfolding guided_round control_round guide
  guided_round-control_round i k t =
      elim (Bool-cases (is_run (state_tick fl i.now pins i.read_pins i.now k).ctx.state)) [
        | inl h ↦ rw h refl
        | inr h ↦ rw h refl
      ]
