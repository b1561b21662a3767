-- ===== src/App/Machine/Driven.antt =====
-- The firmware never drives a motor backwards, nor beyond its limit.
use nuedc_control_freertos.Prelude.{
  ℕ, false, not, ◌==◌, ◌&&◌, ◌≡◌, refl, arith, ℤ, pos, ltb_ℤ, ltb, sub_u32, Bool-cases, inl, inr,
}
use nuedc_control_freertos.Motor.Board
use nuedc_control_freertos.Motor.Board.{Board, forward_only}
use nuedc_control_freertos.Motor.Board.Bounds.{IsValid, safety_tick-IsValid}
use nuedc_control_freertos.Motor.Board.Safety.{safety_tick-IsStopped}
use nuedc_control_freertos.Encoder.{Pins}
use nuedc_control_freertos.System.Fault
use nuedc_control_freertos.System.Fault.{stop_motors-IsStopped}
use nuedc_control_freertos.System.Health
use nuedc_control_freertos.System.Monitor
use nuedc_control_freertos.System.Monitor.{Monitor, health_round}
use nuedc_control_freertos.Control.Floats.{Floats}
use nuedc_control_freertos.Control.Chassis
use nuedc_control_freertos.Control.Chassis.Tick.{Drives, tick-Drives}
use nuedc_control_freertos.App.{Car, is_run, mission_tick, state_tick, control_round}
use nuedc_control_freertos.App.Round.{state_tick-IsValid}

-- a duty that does not reverse the motor, up to the limit
abbrev pub IsForward : ℤ → Type 0
IsForward d = (ltb_ℤ d (pos 0) ≡ false) × (ltb_ℤ (pos 1000) d ≡ false)

-- A valid board with both motors at rest or forward.
pub record IsDriven (b : Board) : Type 0 where
  pub valid : IsValid b
  pub left : IsForward b.left.duty
  pub right : IsForward b.right.duty

pub forward_only-IsForward : (d : ℤ) → IsForward (forward_only d)
unfolding forward_only
forward_only-IsForward d = ground arith

pub Drives-IsDriven : {tick : ℕ} {l r : ℤ} (b : Board) → Drives tick l r b → IsDriven b
Drives-IsDriven {tick} {l} {r} b d = record {
  valid = d.valid;
  left = rw (d.on_left) (forward_only-IsForward l);
  right = rw (d.on_right) (forward_only-IsForward r);
}

pub safety_tick-IsDriven : (b : Board) (now : ℕ) → IsDriven b → IsDriven (Board.safety_tick b now).0
unfolding Board.safety_tick
safety_tick-IsDriven b now d =
    let v = safety_tick-IsValid b now d.valid in
    elim (Bool-cases
      (Board.any_running b && ltb Board.command_timeout_ms (sub_u32 now b.last_command_ms))) [
        | inl late ↦
            let (l, r) = safety_tick-IsStopped b now d.valid (ground arith) in
            record { valid = v; left = rw l (refl, refl); right = rw r (refl, refl) }
        | inr early ↦ rw early d
      ]

pub stop_motors-IsDriven :
    (tick : ℕ) (b : Board) → IsDriven b → IsDriven (Fault.stop_motors tick b).0
stop_motors-IsDriven tick b d =
    let (v, (l, r), _) = stop_motors-IsStopped tick b d.valid in
    record { valid = v; left = rw l (refl, refl); right = rw r (refl, refl) }

pub health_round-IsDriven :
    (tick : ℕ) (m : Monitor) (now : ℕ)
    → IsDriven m.board
    → IsDriven (health_round tick m now).0.board
unfolding health_round Monitor.raise Fault.raise
health_round-IsDriven tick m now d =
    let (ok, mask) = Health.check m.health now in
    elim (Bool-cases (ok && not (Fault.is_active m.faults))) [
      | inl fine ↦ rw fine d
      | inr bad ↦ elim (Bool-cases (not (mask == 0))) [
        | inl stale ↦ rw (bad, stale) (stop_motors-IsDriven tick m.board d)
        | inr fresh ↦ rw (bad, fresh) d
      ]
    ]

module _ (fl : Floats) where
  pub control_round-IsDriven :
      (pins : Pins) (read_pins : ℕ → ℕ → ℕ) (turn : fl.Float) (now : ℕ) (k : Car fl.Float)
      → IsDriven k.board
      → IsDriven (control_round fl pins read_pins turn now k).board
  unfolding control_round
  control_round-IsDriven pins read_pins turn now k d =
      let k' = state_tick fl now pins read_pins now k in
      let ctx = mission_tick fl turn k'.ctx in
      Drives-IsDriven
        (Chassis.tick fl now ctx.chassis k'.encoders k'.board (is_run ctx.state) now).2
        (tick-Drives fl now ctx.chassis k'.encoders k'.board (is_run ctx.state) now
          (state_tick-IsValid fl pins read_pins now k d.valid))
