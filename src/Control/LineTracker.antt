-- ===== src/Control/LineTracker.antt =====
-- control/line_tracker.c: the turn that follows the line. The sensor and the regulator are the
-- objects that `s_sensor` and `s_pid` point to; the regulator may be missing. The board always has
-- a sensor.
pub mod Lost
use nuedc_control_freertos.Prelude.{ℕ, Bool, not, Option, none, some, if◌then◌else◌}
use nuedc_control_freertos.Control.Floats.{Floats}
use nuedc_control_freertos.Control.Pid
use nuedc_control_freertos.Control.Pid.{Pid}
use nuedc_control_freertos.LineSensor
use nuedc_control_freertos.LineSensor.{DevLineSensor, DevLineSensorFrame}

pub record LineTracker (F : Type 0) : Type 0 where
  pub pid : Option (Pid F)
  pub sensor : DevLineSensor F

module _ (fl : Floats) where
  open fl use {Float, lit, neg, lt}

  abbrev pub track_lost_diff : Float
  track_lost_diff = lit 18 2

  unfoldable pub init : Option (Pid Float) → DevLineSensor Float → LineTracker Float
  init line_pid sensor = record { pid = line_pid; sensor = LineSensor.reset fl sensor }

  -- the turn while the line is lost, by the side where it was seen last
  unfoldable pub seek : Float → Float
  seek hold =
      if lt (lit 0 0) hold
      then track_lost_diff
      else if lt hold (lit 0 0)
      then neg track_lost_diff
      else lit 0 0

  unfoldable pub update : (ℕ → ℕ → ℕ) → (ℕ → ℕ → ℕ) → LineTracker Float → LineTracker Float × Float
  unfolding seek
  update read_values read_marks t =
      let sensor = LineSensor.update fl read_values read_marks t.sensor in
      let seen = record t { sensor = sensor } in
      elim t.pid [
        | none ↦ (seen, lit 0 0)
        | some pid ↦
            let (pid', turn) = Pid.update fl pid (lit 0 0) sensor.frame.bias in
            if not sensor.frame.on_line
            then (seen, seek sensor.frame.last_bias)
            else (record seen { pid = some pid' }, turn)
      ]

  unfoldable pub get_info : LineTracker Float → DevLineSensorFrame Float
  get_info t = t.sensor.frame

  unfoldable pub is_on_line : LineTracker Float → Bool
  is_on_line t = t.sensor.frame.on_line

  unfoldable pub get_last_bias : LineTracker Float → Float
  get_last_bias t = t.sensor.frame.last_bias
