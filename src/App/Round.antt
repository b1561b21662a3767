-- ===== src/App/Round.antt =====
-- What a round of the control task does to the state and to the motors.
use nuedc_control_freertos.Prelude.{
  ℕ, ◌+◌, ◌^◌, ◌≤◌, ◌<◌, true, false, ◌&&◌, ◌≡◌, refl, ap, ◌∙◌, arith, ℤ, pos, if◌then◌else◌,
  Bool-cases, inl, inr,
}
use nuedc_control_freertos.Motor.Board.Bounds.{IsValid}
use nuedc_control_freertos.Encoder.{Pins}
use nuedc_control_freertos.Telemetry.Requests.{consume_start, consume_stop, consume_duty}
use nuedc_control_freertos.Control.Floats.{Floats}
use nuedc_control_freertos.Control.Chassis.{set_target_speeds, set_debug_duty, reset_odometry}
use nuedc_control_freertos.Control.Chassis.Tick.{
  Drives, drive-Drives, debug_left, debug_right, idle_tick-Drives,
}
use nuedc_control_freertos.App.{
  AppState, idle, run, is_run, Car, shared_set_state, halt, set_state, tick_stop, start_run,
  tick_start, debug, tick_duty, state_tick, mission_tick, control_round,
}

-- The state that a round of the control task leaves, by the requests it finds: a duty request goes
-- to idle, else a start request runs once the sensor is ready, else a stop request goes to idle.
abbrev pub next_state : {F : Type 0} → Car F → AppState
next_state k =
    if k.requests.duty_request_pending
    then idle
    else (if k.requests.start_request && k.ctx.imu_ready
        then run
        else (if k.requests.stop_request then idle else k.ctx.state))

module _ (fl : Floats) (pins : Pins) (read_pins : ℕ → ℕ → ℕ) where
  open fl use {Float}

  tick_stop-IsValid :
      (now : ℕ) (k : Car Float) → IsValid k.board → IsValid (tick_stop fl now k).board
  unfolding tick_stop consume_stop set_state halt shared_set_state
  tick_stop-IsValid now k v = elim (Bool-cases k.requests.stop_request) [
    | inl h ↦ rw h (drive-Drives now k.board (pos 0) (pos 0) v).valid
    | inr h ↦ rw h v
  ]

  tick_start-IsValid :
      (now : ℕ) (k : Car Float)
      → IsValid k.board
      → IsValid (tick_start fl now pins read_pins k).board
  unfolding tick_start start_run consume_start set_state
  tick_start-IsValid now k v = elim (Bool-cases (k.requests.start_request && k.ctx.imu_ready)) [
    | inl h ↦ rw h v
    | inr h ↦ rw h v
  ]

  tick_duty-IsValid :
      (now : ℕ) (k : Car Float) → IsValid k.board → IsValid (tick_duty fl now now k).board
  unfolding tick_duty debug consume_duty set_state halt shared_set_state
  tick_duty-IsValid now k v = elim (Bool-cases k.requests.duty_request_pending) [
    | inl h ↦ rw h (drive-Drives now k.board (pos 0) (pos 0) v).valid
    | inr h ↦ rw h v
  ]

  pub state_tick-IsValid :
      (now : ℕ) (k : Car Float)
      → IsValid k.board
      → IsValid (state_tick fl now pins read_pins now k).board
  unfolding state_tick
  state_tick-IsValid now k v =
      let k1 = tick_stop fl now k in
      let k2 = tick_start fl now pins read_pins k1 in
      tick_duty-IsValid now k2 (tick_start-IsValid now k1 (tick_stop-IsValid now k v))

  tick_stop-state :
      (now : ℕ) (k : Car Float)
      → let k' = tick_stop fl now k in
        (k'.ctx.state ≡ (if k.requests.stop_request then idle else k.ctx.state))
        × (k'.ctx.imu_ready ≡ k.ctx.imu_ready)
        × (k'.requests.start_request ≡ k.requests.start_request)
        × (k'.requests.duty_request_pending ≡ k.requests.duty_request_pending)
        × (debug_left k'.ctx.chassis now ≡ debug_left k.ctx.chassis now)
        × (debug_right k'.ctx.chassis now ≡ debug_right k.ctx.chassis now)
        × (k'.requests.duty_request ≡ k.requests.duty_request)
  unfolding tick_stop consume_stop set_state halt shared_set_state set_target_speeds
  tick_stop-state now k = elim (Bool-cases k.requests.stop_request) [
    | inl h ↦ simp h (refl, refl, refl, refl, refl, refl, refl)
    | inr h ↦ simp h (refl, refl, refl, refl, refl, refl, refl)
  ]

  tick_start-state :
      (now : ℕ) (k : Car Float)
      → let k' = tick_start fl now pins read_pins k in
        (k'.ctx.state ≡ (if k.requests.start_request && k.ctx.imu_ready then run else k.ctx.state))
        × (k'.requests.duty_request_pending ≡ k.requests.duty_request_pending)
        × (debug_left k'.ctx.chassis now ≡ debug_left k.ctx.chassis now)
        × (debug_right k'.ctx.chassis now ≡ debug_right k.ctx.chassis now)
        × (k'.requests.duty_request ≡ k.requests.duty_request)
  unfolding tick_start consume_start start_run set_state shared_set_state reset_odometry
  tick_start-state now k = elim (Bool-cases (k.requests.start_request && k.ctx.imu_ready)) [
    | inl h ↦ simp h (refl, refl, refl, refl, refl)
    | inr h ↦ simp h (refl, refl, refl, refl, refl)
  ]

  mission_tick-state :
      (turn : Float) (k : Car Float) → (mission_tick fl turn k.ctx).state ≡ k.ctx.state
  unfolding mission_tick
  mission_tick-state turn k = elim (Bool-cases (is_run k.ctx.state)) [
    | inl h ↦ simp h refl
    | inr h ↦ simp h refl
  ]

  tick_duty-state :
      (now : ℕ) (k : Car Float)
      → (tick_duty fl now now k).ctx.state
        ≡ (if k.requests.duty_request_pending then idle else k.ctx.state)
  unfolding tick_duty debug consume_duty set_state halt shared_set_state
  tick_duty-state now k = ground arith

  tick_duty-kept :
      (now : ℕ) (k : Car Float)
      → k.requests.duty_request_pending ≡ false
      → let k' = tick_duty fl now now k in
        (debug_left k'.ctx.chassis now ≡ debug_left k.ctx.chassis now)
        × (debug_right k'.ctx.chassis now ≡ debug_right k.ctx.chassis now)
  unfolding tick_duty consume_duty
  tick_duty-kept now k h = rw h (refl, refl)

  -- the hold time of a request ends ahead, if the tick does not wrap before
  tick_duty-given :
      (now : ℕ) (k : Car Float)
      → k.requests.duty_request_pending ≡ true
      → 1 ≤ k.requests.duty_request.hold_ms
      → now + k.requests.duty_request.hold_ms < 2 ^ 32
      → let k' = tick_duty fl now now k in
        (debug_left k'.ctx.chassis now ≡ k.requests.duty_request.left_pwm)
        × (debug_right k'.ctx.chassis now ≡ k.requests.duty_request.right_pwm)
  unfolding tick_duty consume_duty debug set_state halt shared_set_state set_debug_duty
  tick_duty-given now k h held early = ground arith

  pub round-next_state :
      (turn : Float) (now : ℕ) (k : Car Float)
      → (control_round fl pins read_pins turn now k).ctx.state ≡ next_state k
  unfolding control_round state_tick
  round-next_state turn now k =
      let k1 = tick_stop fl now k in
      let k2 = tick_start fl now pins read_pins k1 in
      let k3 = tick_duty fl now now k2 in
      ground (
        arith,
        mission_tick-state turn k3,
        tick_duty-state now k2,
        tick_start-state now k1,
        tick_stop-state now k,
      )

  mission_tick-debug :
      (turn : Float) (now : ℕ) (k : Car Float)
      → let c = (mission_tick fl turn k.ctx).chassis in
        (debug_left c now ≡ debug_left k.ctx.chassis now)
        × (debug_right c now ≡ debug_right k.ctx.chassis now)
  unfolding mission_tick set_target_speeds
  mission_tick-debug turn now k = elim (Bool-cases (is_run k.ctx.state)) [
    | inl h ↦ simp h (refl, refl)
    | inr h ↦ simp h (refl, refl)
  ]

  -- the duties that a round asks for when it ends outside the run state
  round-Drives :
      (turn : Float) (now : ℕ) (k : Car Float) (left right : ℤ)
      → IsValid k.board
      → let k' = state_tick fl now pins read_pins now k in
        is_run k'.ctx.state ≡ false
        → debug_left k'.ctx.chassis now ≡ left
        → debug_right k'.ctx.chassis now ≡ right
        → Drives now left right (control_round fl pins read_pins turn now k).board
  unfolding control_round
  round-Drives turn now k left right v h hl hr =
      let k' = state_tick fl now pins read_pins now k in
      let ctx = mission_tick fl turn k'.ctx in
      idle_tick-Drives fl now ctx.chassis k'.encoders k'.board (is_run ctx.state) now left right
        (state_tick-IsValid now k v) (ap is_run (mission_tick-state turn k') ∙ h)
        ((mission_tick-debug turn now k').0 ∙ hl) ((mission_tick-debug turn now k').1 ∙ hr)

  pub state_tick-state :
      (now : ℕ) (k : Car Float) → (state_tick fl now pins read_pins now k).ctx.state ≡ next_state k
  unfolding state_tick
  state_tick-state now k =
      let k1 = tick_stop fl now k in
      let k2 = tick_start fl now pins read_pins k1 in
      ground (arith, tick_duty-state now k2, tick_start-state now k1, tick_stop-state now k)

  state_tick-kept :
      (now : ℕ) (k : Car Float)
      → k.requests.duty_request_pending ≡ false
      → let k' = state_tick fl now pins read_pins now k in
        (debug_left k'.ctx.chassis now ≡ debug_left k.ctx.chassis now)
        × (debug_right k'.ctx.chassis now ≡ debug_right k.ctx.chassis now)
  unfolding state_tick
  state_tick-kept now k h =
      let k1 = tick_stop fl now k in
      let k2 = tick_start fl now pins read_pins k1 in
      let (_, _, _, pending1, left1, right1, _) = tick_stop-state now k in
      let (_, pending2, left2, right2, _) = tick_start-state now k1 in
      let (left3, right3) = tick_duty-kept now k2 (pending2 ∙ pending1 ∙ h) in
      (left3 ∙ left2 ∙ left1, right3 ∙ right2 ∙ right1)

  state_tick-given :
      (now : ℕ) (k : Car Float)
      → k.requests.duty_request_pending ≡ true
      → 1 ≤ k.requests.duty_request.hold_ms
      → now + k.requests.duty_request.hold_ms < 2 ^ 32
      → let k' = state_tick fl now pins read_pins now k in
        (debug_left k'.ctx.chassis now ≡ k.requests.duty_request.left_pwm)
        × (debug_right k'.ctx.chassis now ≡ k.requests.duty_request.right_pwm)
  unfolding state_tick
  state_tick-given now k h held early =
      let k1 = tick_stop fl now k in
      let k2 = tick_start fl now pins read_pins k1 in
      let (_, _, _, pending1, _, _, same1) = tick_stop-state now k in
      let (_, pending2, _, _, same2) = tick_start-state now k1 in
      let same = same2 ∙ same1 in
      let hold = ap (λ d. d.hold_ms) same in
      let (left, right) =
        tick_duty-given now k2 (pending2 ∙ pending1 ∙ h) (omega (arith, hold, held))
          (omega (arith, hold, early)) in
      (left ∙ ap (λ d. d.left_pwm) same, right ∙ ap (λ d. d.right_pwm) same)

  -- On a valid board, a round that finds no duty request and ends outside the run state gives the
  -- motors the clamped debug duty that is still live, and 0 where none is.
  pub round-stopped :
      (turn : Float) (now : ℕ) (k : Car Float)
      → IsValid k.board
      → k.requests.duty_request_pending ≡ false
      → is_run (next_state k) ≡ false
      → Drives now
          (debug_left k.ctx.chassis now)
          (debug_right k.ctx.chassis now)
          (control_round fl pins read_pins turn now k).board
  round-stopped turn now k v duty idle_next =
      let (left, right) = state_tick-kept now k duty in
      round-Drives turn now k (debug_left k.ctx.chassis now) (debug_right k.ctx.chassis now) v
        (ap is_run (state_tick-state now k) ∙ idle_next) left right

  -- On a valid board, a round that finds a duty request goes to idle and gives the motors the duties
  -- asked for, clamped, if the hold time is not 0 and the tick does not wrap before its end.
  pub round-duty :
      (turn : Float) (now : ℕ) (k : Car Float)
      → IsValid k.board
      → k.requests.duty_request_pending ≡ true
      → 1 ≤ k.requests.duty_request.hold_ms
      → now + k.requests.duty_request.hold_ms < 2 ^ 32
      → let k' = control_round fl pins read_pins turn now k in
        (k'.ctx.state ≡ idle)
        × Drives now k.requests.duty_request.left_pwm k.requests.duty_request.right_pwm k'.board
  round-duty turn now k v duty held early =
      let (left, right) = state_tick-given now k duty held early in
      (
        round-next_state turn now k ∙ rw duty refl,
        round-Drives turn now k k.requests.duty_request.left_pwm k.requests.duty_request.right_pwm v
            (ap is_run (state_tick-state now k) ∙ rw duty refl) left right,
      )
