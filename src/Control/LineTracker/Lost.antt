-- ===== src/Control/LineTracker/Lost.antt =====
-- The tracker while the line is lost.
use nuedc_control_freertos.Prelude.{
  ℕ, false, List, [], ◌∷◌, ◌≡◌, refl, ap, sym, ◌∙◌, arith, Option, some,
}
use nuedc_control_freertos.Control.Floats.{Floats}
use nuedc_control_freertos.Control.Pid.{Pid}
use nuedc_control_freertos.LineSensor
use nuedc_control_freertos.LineSensor.{DevLineSensor, evaluate, steer}
use nuedc_control_freertos.Control.LineTracker.{
  LineTracker, seek, update, is_on_line, get_last_bias,
}

-- the pins as they are read for the values and for the bits
abbrev pub Reading : Type 0
Reading = (ℕ → ℕ → ℕ) × (ℕ → ℕ → ℕ)

module _ (fl : Floats) where
  sensor-lost :
      (values marks : ℕ → ℕ → ℕ) (sensor : DevLineSensor fl.Float)
      → (LineSensor.update fl values marks sensor).frame.on_line ≡ false
      → (LineSensor.update fl values marks sensor).frame.last_bias ≡ sensor.frame.last_bias
  unfolding LineSensor.update evaluate steer
  sensor-lost values marks sensor lost = ground arith

  update-sensor :
      (values marks : ℕ → ℕ → ℕ) (t : LineTracker fl.Float)
      → (update fl values marks t).0.sensor ≡ LineSensor.update fl values marks t.sensor
  unfolding update
  update-sensor values marks t = ground arith

  -- the reading of the sensor did not find the line
  unseen :
      (values marks : ℕ → ℕ → ℕ) (t : LineTracker fl.Float)
      → is_on_line fl (update fl values marks t).0 ≡ false
      → (LineSensor.update fl values marks t.sensor).frame.on_line ≡ false
  unfolding is_on_line
  unseen values marks t lost = ap (λ s. s.frame.on_line) (sym (update-sensor values marks t)) ∙ lost

  -- what the tracker keeps of the line: the regulator and the last bias
  abbrev pub memory : LineTracker fl.Float → Option (Pid fl.Float) × fl.Float
  memory t = (t.pid, get_last_bias fl t)

  step-lost :
      (values marks : ℕ → ℕ → ℕ) (t : LineTracker fl.Float)
      → is_on_line fl (update fl values marks t).0 ≡ false
      → memory (update fl values marks t).0 ≡ memory t
  unfolding update get_last_bias
  step-lost values marks t lost =
      let missed = unseen values marks t lost in
      ground (arith, missed, sensor-lost values marks t.sensor missed)

  seek-lost :
      (values marks : ℕ → ℕ → ℕ) (t : LineTracker fl.Float) (pid : Pid fl.Float)
      → t.pid ≡ some pid
      → is_on_line fl (update fl values marks t).0 ≡ false
      → (update fl values marks t).1 ≡ seek fl (get_last_bias fl t)
  unfolding update get_last_bias
  seek-lost values marks t pid has lost =
      let missed = unseen values marks t lost in
      ground (arith, missed, sensor-lost values marks t.sensor missed)

  -- the tracker after a list of readings
  unfoldable pub run : List Reading → LineTracker fl.Float → LineTracker fl.Float
  run [] t = t
  run (r ∷ rs) t = run rs (update fl r.0 r.1 t).0

  -- no reading finds the line
  abbrev pub IsLost : List Reading → LineTracker fl.Float → Type 0
  IsLost [] t = Unit
  IsLost (r ∷ rs) t =
      (is_on_line fl (update fl r.0 r.1 t).0 ≡ false) × IsLost rs (update fl r.0 r.1 t).0

  run-lost :
      (readings : List Reading) (t : LineTracker fl.Float)
      → IsLost readings t
      → memory (run readings t) ≡ memory t
  unfolding run
  run-lost [] t lost = refl
  run-lost (r ∷ rs) t (lost, later) =
      run-lost rs (update fl r.0 r.1 t).0 later ∙ step-lost r.0 r.1 t lost

  -- While no reading finds the line, the regulator and the last bias stay, and each turn is the one
  -- that seeks the line where it was seen last before.
  pub lost-seek :
      (readings : List Reading) (values marks : ℕ → ℕ → ℕ) (t : LineTracker fl.Float)
      (pid : Pid fl.Float)
      → t.pid ≡ some pid
      → IsLost readings t
      → is_on_line fl (update fl values marks (run readings t)).0 ≡ false
      → (memory (update fl values marks (run readings t)).0 ≡ memory t)
        × ((update fl values marks (run readings t)).1 ≡ seek fl (get_last_bias fl t))
  lost-seek readings values marks t pid has before now =
      let kept = run-lost readings t before in
      (
        step-lost values marks (run readings t) now ∙ kept,
        seek-lost values marks (run readings t) pid (ap (λ m. m.0) kept ∙ has) now
            ∙ ap (λ m. seek fl m.1) kept,
      )
