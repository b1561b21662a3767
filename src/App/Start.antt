-- ===== src/App/Start.antt =====
-- When the car may start.
use nuedc_control_freertos.Prelude.{ℕ, false, List, [], ◌∷◌, ◌≡◌, ap, ◌∙◌, arith}
use nuedc_control_freertos.Encoder.{Pins}
use nuedc_control_freertos.Control.Floats.{Floats}
use nuedc_control_freertos.App.{
  Car, AppContext, is_run, tick_stop, tick_start, tick_duty, set_state, halt, shared_set_state,
  start_run, debug, mission_tick, state_tick, control_round,
}
use nuedc_control_freertos.Telemetry.Requests.{consume_stop, consume_start, consume_duty}
use nuedc_control_freertos.App.Round.{next_state, round-next_state}
use nuedc_control_freertos.App.Tasks.{
  Firmware, Step, fast, control, requests, published, snapshot_ready, copy_imu_snapshot, fast_round,
  control_task_round, step, run_steps,
}

-- no snapshot among the steps is ready
abbrev pub NeverReady : {F : Type 0} → List (Step F) → Type 0
NeverReady [] = Unit
NeverReady (published snapshot ∷ ss) = (snapshot_ready snapshot ≡ false) × NeverReady ss
NeverReady (_ ∷ ss) = NeverReady ss

-- the car does not run, and knows of no ready sensor
pub record IsHeld {F : Type 0} (f : Firmware F) : Type 0 where
  pub standing : is_run f.car.ctx.state ≡ false
  pub unready : f.car.ctx.imu_ready ≡ false
  pub unpublished : snapshot_ready f.snapshot ≡ false

module _ (fl : Floats) (pins : Pins) where
  pub next-standing :
      (k : Car fl.Float)
      → is_run k.ctx.state ≡ false
      → k.ctx.imu_ready ≡ false
      → is_run (next_state k) ≡ false
  next-standing k standing unready = ground arith

  stop-ready : (now : ℕ) (k : Car fl.Float) → (tick_stop fl now k).ctx.imu_ready ≡ k.ctx.imu_ready
  unfolding tick_stop consume_stop set_state halt shared_set_state
  stop-ready now k = ground arith

  start-ready :
      (now : ℕ) (read_pins : ℕ → ℕ → ℕ) (k : Car fl.Float)
      → (tick_start fl now pins read_pins k).ctx.imu_ready ≡ k.ctx.imu_ready
  unfolding tick_start start_run consume_start set_state halt shared_set_state
  start-ready now read_pins k = ground arith

  duty-ready :
      (now : ℕ) (k : Car fl.Float) → (tick_duty fl now now k).ctx.imu_ready ≡ k.ctx.imu_ready
  unfolding tick_duty consume_duty debug set_state halt shared_set_state
  duty-ready now k = ground arith

  mission-ready :
      (turn : fl.Float) (ctx : AppContext fl.Float)
      → (mission_tick fl turn ctx).imu_ready ≡ ctx.imu_ready
  unfolding mission_tick
  mission-ready turn ctx = ground arith

  pub control-ready :
      (read_pins : ℕ → ℕ → ℕ) (turn : fl.Float) (now : ℕ) (k : Car fl.Float)
      → (control_round fl pins read_pins turn now k).ctx.imu_ready ≡ k.ctx.imu_ready
  unfolding control_round state_tick
  control-ready read_pins turn now k =
      let k1 = tick_stop fl now k in
      let k2 = tick_start fl now pins read_pins k1 in
      mission-ready turn (tick_duty fl now now k2).ctx
      ∙ duty-ready now k2
      ∙ start-ready now read_pins k1
      ∙ stop-ready now k

  step-IsHeld :
      (f : Firmware fl.Float) (s : Step fl.Float)
      → NeverReady (s ∷ [])
      → IsHeld f
      → IsHeld (step fl pins f s)
  unfolding step fast_round control_task_round copy_imu_snapshot
  step-IsHeld f (fast read_pins now) never h = record {
    standing = h.standing;
    unready = h.unpublished;
    unpublished = h.unpublished;
  }
  step-IsHeld f (control read_pins turn now) never h = record {
    standing =
        ap is_run (round-next_state fl pins read_pins turn now f.car)
        ∙ next-standing f.car h.standing h.unready;
    unready = control-ready read_pins turn now f.car ∙ h.unready;
    unpublished = h.unpublished;
  }
  step-IsHeld f (requests r) never h = record {
    standing = h.standing;
    unready = h.unready;
    unpublished = h.unpublished;
  }
  step-IsHeld f (published snapshot) never h = record {
    standing = h.standing;
    unready = h.unready;
    unpublished = never.0;
  }

  -- As long as no snapshot that says that the sensor is ready is published, a car that stands and
  -- knows of no ready sensor never runs, whatever rounds of the tasks, requests and other snapshots
  -- come in whatever order.
  pub run_steps-IsHeld :
      (f : Firmware fl.Float) (steps : List (Step fl.Float))
      → NeverReady steps
      → IsHeld f
      → IsHeld (run_steps fl pins f steps)
  unfolding run_steps
  run_steps-IsHeld f [] never h = h
  run_steps-IsHeld f (fast read_pins now ∷ ss) never h =
      let s = fast read_pins now in
      run_steps-IsHeld (step fl pins f s) ss never (step-IsHeld f s tt h)
  run_steps-IsHeld f (control read_pins turn now ∷ ss) never h =
      let s = control read_pins turn now in
      run_steps-IsHeld (step fl pins f s) ss never (step-IsHeld f s tt h)
  run_steps-IsHeld f (requests r ∷ ss) never h =
      run_steps-IsHeld (step fl pins f (requests r)) ss never (step-IsHeld f (requests r) tt h)
  run_steps-IsHeld f (published snapshot ∷ ss) never h =
      let s = published snapshot in
      run_steps-IsHeld (step fl pins f s) ss never.1 (step-IsHeld f s (never.0, tt) h)
