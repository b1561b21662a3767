-- ===== src/App/Machine/Unfed.antt =====
-- After a fault, no task feeds the watchdog.
use nuedc_control_freertos.Prelude.{
  ℕ, Bool, false, ◌&&◌, List, [], ◌++◌, ◌≡◌, refl, ap, ◌∙◌, arith, ℤ, pos, Bool-cases, Returns,
  Returns->>=, inl, inr,
}
use nuedc_control_freertos.Platform.Calls.{Trace}
use nuedc_control_freertos.Motor.Board
use nuedc_control_freertos.Motor.Board.{Board}
use nuedc_control_freertos.Motor.Board.Bounds
use nuedc_control_freertos.Motor.Board.Bounds.{check}
use nuedc_control_freertos.Encoder.{Encoders, Pins}
use nuedc_control_freertos.System.Monitor.Watchdog.{
  feeds, feeds-append, feeds-set_duty, feeds-motor, feeds-step,
}
use nuedc_control_freertos.Telemetry.Requests.{consume_stop, consume_start, consume_duty}
use nuedc_control_freertos.Control.Floats.{Floats}
use nuedc_control_freertos.Control.Chassis
use nuedc_control_freertos.Control.Chassis.{ControlChassis, drive, actuate}
use nuedc_control_freertos.App.{
  Car, AppState, idle, is_run, tick_stop, tick_start, tick_duty, set_state, halt, shared_set_state,
  start_run, debug, mission_tick, state_tick, control_round,
}
use nuedc_control_freertos.Platform.Wiring.{encoder_pins}
use nuedc_control_freertos.Platform.Uart.Sent.{IsPrompt}
use nuedc_control_freertos.System.Monitor
use nuedc_control_freertos.System.Monitor.{Event, round, fault}
use nuedc_control_freertos.System.Monitor.Latch.{IsActive, step-latched}
use nuedc_control_freertos.Telemetry.Emit
use nuedc_control_freertos.Telemetry.Emit.{print}
use nuedc_control_freertos.Telemetry.Emit.Output.{IsKept, print-Returns}
use nuedc_control_freertos.Telemetry.Uart.{irq_handler}
use nuedc_control_freertos.Control.LineTracker
use nuedc_control_freertos.Imu.Service.{ImuBoard}
use nuedc_control_freertos.App.Tasks.{fast_round}
use nuedc_control_freertos.App.Mission.{Inputs}
use nuedc_control_freertos.App.Mission.Lost.{guided_round-control_round}
use nuedc_control_freertos.App.Machine.Steps.{Anything, run-keeps, All-Anything}
use nuedc_control_freertos.App.Machine.{
  Machine, Environment, Step, fast, control, telemetry, health, received, edge, sensed, alive,
  raised, Whole, car, monitor, put_monitor, fast_task, control_task, telemetry_task, rx_interrupt,
  step, run,
}

-- Calls that do not feed the watchdog are added.
pub unfed-append : (t s : Trace) → feeds s ≡ false → feeds (t ++ s) ≡ feeds t
unfed-append t s h = ground (arith, feeds-append t s)

pub feeds-drive : (tick : ℕ) (b : Board) (l r : ℤ) → feeds (drive tick b l r).1 ≡ false
unfolding drive
feeds-drive tick b l r =
    let (b', t) = Board.set_duty tick b 0 l in
    ground (
      arith,
      feeds-append t (Board.set_duty tick b' 1 r).1,
      feeds-set_duty tick b 0 l,
      feeds-set_duty tick b' 1 r,
    )

module _ (fl : Floats) where
  open fl use {Float}

  pub feeds-set_state :
      (tick : ℕ) (k : Car Float) (s : AppState)
      → feeds (set_state fl tick k s).calls ≡ feeds k.calls
  unfolding set_state halt shared_set_state
  feeds-set_state tick k s = elim (Bool-cases (is_run s)) [
    | inl h ↦ rw h refl
    | inr h ↦ rw h (
        unfed-append k.calls (drive tick k.board (pos 0) (pos 0)).1
          (feeds-drive tick k.board (pos 0) (pos 0)))
  ]

  feeds-tick_stop : (now : ℕ) (k : Car Float) → feeds (tick_stop fl now k).calls ≡ feeds k.calls
  unfolding tick_stop consume_stop
  feeds-tick_stop now k = elim (Bool-cases k.requests.stop_request) [
    | inl h ↦
        let k' = record k { requests = (consume_stop k.requests).0 } in
        rw h (feeds-set_state now k' idle)
    | inr h ↦ rw h refl
  ]

  feeds-tick_start :
      (pins : Pins) (read_pins : ℕ → ℕ → ℕ) (now : ℕ) (k : Car Float)
      → feeds (tick_start fl now pins read_pins k).calls ≡ feeds k.calls
  unfolding tick_start consume_start start_run set_state shared_set_state
  feeds-tick_start pins read_pins now k =
      elim (Bool-cases (k.requests.start_request && k.ctx.imu_ready)) [
        | inl h ↦ rw h refl
        | inr h ↦ rw h refl
      ]

  feeds-tick_duty : (now : ℕ) (k : Car Float) → feeds (tick_duty fl now now k).calls ≡ feeds k.calls
  unfolding tick_duty consume_duty debug
  feeds-tick_duty now k = elim (Bool-cases k.requests.duty_request_pending) [
    | inl h ↦
        let k' = record k { requests = (consume_duty k.requests).0 } in
        rw h (feeds-set_state now k' idle)
    | inr h ↦ rw h refl
  ]

  feeds-state_tick :
      (pins : Pins) (read_pins : ℕ → ℕ → ℕ) (now : ℕ) (k : Car Float)
      → feeds (state_tick fl now pins read_pins now k).calls ≡ feeds k.calls
  unfolding state_tick
  feeds-state_tick pins read_pins now k =
      let k1 = tick_stop fl now k in
      let k2 = tick_start fl now pins read_pins k1 in
      feeds-tick_duty now k2 ∙ feeds-tick_start pins read_pins now k1 ∙ feeds-tick_stop now k

  feeds-actuate :
      (tick : ℕ) (c : ControlChassis Float) (b : Board) (run : Bool) (now : ℕ) (l r : ℤ)
      → feeds (actuate fl tick c b run now l r).2 ≡ false
  unfolding actuate
  feeds-actuate tick c b run now l r = grind (arith, feeds-drive)

  feeds-tick :
      (tick : ℕ) (c : ControlChassis Float) (e : Encoders) (b : Board) (run : Bool) (now : ℕ)
      → feeds (Chassis.tick fl tick c e b run now).3 ≡ false
  unfolding Chassis.tick
  feeds-tick tick c e b run now =
      let (c', e', l, r) = Chassis.measure fl c e in feeds-actuate tick c' b run now l r

  feeds-control_round :
      (pins : Pins) (read_pins : ℕ → ℕ → ℕ) (turn : Float) (now : ℕ) (k : Car Float)
      → feeds (control_round fl pins read_pins turn now k).calls ≡ feeds k.calls
  unfolding control_round
  feeds-control_round pins read_pins turn now k =
      let k' = state_tick fl now pins read_pins now k in
      let ctx = mission_tick fl turn k'.ctx in
      let tick = Chassis.tick fl now ctx.chassis k'.encoders k'.board (is_run ctx.state) now in
      unfed-append k'.calls tick.3
        (feeds-tick now ctx.chassis k'.encoders k'.board (is_run ctx.state) now)
      ∙ feeds-state_tick pins read_pins now k

-- A fault is active, and the watchdog has not been fed.
pub record IsUnfed {F S : Type 0} (m : Machine F S) : Type 0 where
  pub active : IsActive (monitor m)
  pub unfed : feeds m.calls ≡ false

module _ (fl : Floats) (hw : ImuBoard) (e : Environment fl.Float) where
  fast-IsUnfed :
      (read_pins : ℕ → ℕ → ℕ) (now : ℕ) (m : Whole fl hw e)
      → IsUnfed m
      → IsUnfed (fast_task fl hw e read_pins now m)
  unfolding fast_task fast_round Bounds.apply
  fast-IsUnfed read_pins now m h = record {
    active = h.active;
    unfed =
        unfed-append m.calls (Board.safety_tick m.board now).1 (feeds-motor m.board (check now))
        ∙ h.unfed;
  }

  control-IsUnfed :
      (i : Inputs) (m : Whole fl hw e) → IsUnfed m → IsUnfed (control_task fl hw e i m)
  unfolding control_task
  control-IsUnfed i m h =
      let turn = (LineTracker.update fl i.values i.marks m.tracker).1 in
      record {
        active = h.active;
        unfed =
            ap (λ k. feeds k.calls)
              (guided_round-control_round fl (encoder_pins e.pin_map) i (car m) m.tracker)
            ∙ feeds-control_round fl (encoder_pins e.pin_map) i.read_pins turn i.now (car m)
            ∙ h.unfed;
      }

  -- a step of the health monitor on the machine
  monitored-IsUnfed :
      (ev : Event) (m : Whole fl hw e)
      → IsUnfed m
      → IsUnfed (put_monitor m (Monitor.step (monitor m) ev))
  monitored-IsUnfed ev m h = record {
    active = rw (step-latched (monitor m) ev h.active) h.active;
    unfed =
        unfed-append m.calls (Monitor.step (monitor m) ev).1 (feeds-step (monitor m) ev h.active)
        ∙ h.unfed;
  }

  telemetry-IsUnfed :
      (now : ℕ) (m : Whole fl hw e)
      → IsPrompt e.dev e.uart.inst e.looks
      → IsUnfed m
      → Returns (telemetry_task fl hw e now m) IsUnfed
  unfolding telemetry_task
  telemetry-IsUnfed now m prompt h =
      let lines = (Emit.tick fl m.emitter m.port now (m.ctx, m.tracker.sensor.frame)).1 in
      Returns->>= (IsKept m.uart) IsUnfed (print e.dev e.uart e.looks e.line_text lines m.uart) _
        (print-Returns e.dev e.uart e.looks e.line_text lines m.uart prompt)
        (λ u _. record { active = h.active; unfed = h.unfed })

  received-IsUnfed :
      (m : Whole fl hw e)
      → IsPrompt e.dev e.uart.inst e.looks
      → IsUnfed m
      → Returns (rx_interrupt fl hw e m) IsUnfed
  unfolding rx_interrupt
  received-IsUnfed m prompt h =
      let (u, s) = irq_handler e.dev e.uart m.uart (m.port, []) in
      Returns->>= (IsKept u) IsUnfed (print e.dev e.uart e.looks e.reply_text s.1 u) _
        (print-Returns e.dev e.uart e.looks e.reply_text s.1 u prompt)
        (λ u' _. record { active = h.active; unfed = h.unfed })

  step-IsUnfed :
      (s : Step fl.Float hw.vendor.State) (m : Whole fl hw e)
      → IsPrompt e.dev e.uart.inst e.looks
      → IsUnfed m
      → Returns (step fl hw e m s) IsUnfed
  unfolding step Monitor.step
  step-IsUnfed (fast read_pins now) m prompt h = fast-IsUnfed read_pins now m h
  step-IsUnfed (control i) m prompt h = control-IsUnfed i m h
  step-IsUnfed (telemetry now) m prompt h = telemetry-IsUnfed now m prompt h
  step-IsUnfed (health now) m prompt h = monitored-IsUnfed (round m.g_tick_ms now) m h
  step-IsUnfed received m prompt h = received-IsUnfed m prompt h
  step-IsUnfed (edge read_pins pending) m prompt h = record { active = h.active; unfed = h.unfed }
  step-IsUnfed (sensed s) m prompt h = record { active = h.active; unfed = h.unfed }
  step-IsUnfed (alive now) m prompt h = record { active = h.active; unfed = h.unfed }
  step-IsUnfed (raised code detail) m prompt h =
      monitored-IsUnfed (fault m.g_tick_ms code detail) m h

  -- On a UART that is no longer busy after so many looks, the firmware goes on through any rounds,
  -- interrupts and faults, and where a fault is active and the watchdog has not been fed, neither
  -- changes.
  pub run-IsUnfed :
      (ss : List (Step fl.Float hw.vendor.State)) (m : Whole fl hw e)
      → IsPrompt e.dev e.uart.inst e.looks
      → IsUnfed m
      → Returns (run fl hw e m ss) IsUnfed
  run-IsUnfed ss m prompt h =
      run-keeps fl hw e Anything IsUnfed (λ s m _ h'. step-IsUnfed s m prompt h') ss m
        (All-Anything ss) h
