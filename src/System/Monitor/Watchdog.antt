-- ===== src/System/Monitor/Watchdog.antt =====
-- When the watchdog is fed.
use nuedc_control_freertos.Prelude.{
  ℕ, ◌<◌, Bool, true, false, ◌||◌, List, [], ◌∷◌, ◌++◌, ◌≡◌, ◌↔◌, refl, arith, ℤ,
}
use nuedc_control_freertos.Platform.Calls.{
  Trace, set_pins, clear_pins, toggle_pins, start_counter, set_compare, restart_watchdog,
  set_active_window0, set_halt_stop,
}
use nuedc_control_freertos.Platform.Gpio.{DrvGpioPin, write_raw}
use nuedc_control_freertos.Platform.Pwm
use nuedc_control_freertos.Platform.Pwm.{DrvPwmChannel, set_duty_permille, set_compare_raw}
use nuedc_control_freertos.Platform.HBridge
use nuedc_control_freertos.Platform.HBridge.{DrvHBridgeMotor}
use nuedc_control_freertos.Motor.Device
use nuedc_control_freertos.Motor.Device.{DevMotor}
use nuedc_control_freertos.Motor.Board
use nuedc_control_freertos.Motor.Board.{Board, refresh_standby}
use nuedc_control_freertos.Motor.Board.Bounds
use nuedc_control_freertos.Motor.Board.Bounds.{command, forward, stop, check}
use nuedc_control_freertos.System.Fault
use nuedc_control_freertos.System.Fault.{task_stale}
use nuedc_control_freertos.System.Health
use nuedc_control_freertos.System.Health.Deadlines.{IsComplete, IsStale, check-ok}
use nuedc_control_freertos.System.Monitor.Latch.{IsActive, step-latched}
use nuedc_control_freertos.System.Monitor.{
  Monitor, raise, health_round, Event, beat, fault, motor, round, step, run,
}

-- Whether a trace restarts the watchdog.
abbrev pub feeds : Trace → Bool
feeds [] = false
feeds (restart_watchdog ∷ t) = true
feeds (_ ∷ t) = feeds t

pub feeds-append : (s t : Trace) → feeds (s ++ t) ≡ (feeds s || feeds t)
feeds-append [] t = refl
feeds-append (restart_watchdog ∷ s) t = refl
feeds-append (set_pins q p ∷ s) t = feeds-append s t
feeds-append (clear_pins q p ∷ s) t = feeds-append s t
feeds-append (toggle_pins q p ∷ s) t = feeds-append s t
feeds-append (start_counter u ∷ s) t = feeds-append s t
feeds-append (set_compare u v c ∷ s) t = feeds-append s t
feeds-append (set_active_window0 ∷ s) t = feeds-append s t
feeds-append (set_halt_stop ∷ s) t = feeds-append s t

feeds-pin : (p : DrvGpioPin) (high : Bool) → feeds (write_raw p high) ≡ false
unfolding write_raw
feeds-pin p high = ground arith

feeds-pwm : (c : DrvPwmChannel) (d : ℕ) → feeds (set_duty_permille c d) ≡ false
unfolding set_duty_permille set_compare_raw
feeds-pwm c d = ground arith

ruleset quiet = (feeds-append, feeds-pin, feeds-pwm)

feeds-coast : (m : DrvHBridgeMotor) → feeds (HBridge.coast m) ≡ false
unfolding HBridge.coast
feeds-coast m = simp quiet

feeds-brake : (m : DrvHBridgeMotor) → feeds (HBridge.brake m) ≡ false
unfolding HBridge.brake
feeds-brake m = simp quiet

pub feeds-start : (m : DrvHBridgeMotor) → feeds (HBridge.start m) ≡ false
unfolding HBridge.start Pwm.start
feeds-start m = grind (arith, quiet, feeds-coast)

feeds-hbridge : (m : DrvHBridgeMotor) (d : ℤ) → feeds (HBridge.set_signed_duty m d) ≡ false
unfolding HBridge.set_signed_duty
feeds-hbridge m d = grind (arith, quiet, feeds-coast)

feeds-device : (m : DevMotor) (d : ℤ) → feeds (Device.set_signed_duty m d).1 ≡ false
unfolding Device.set_signed_duty
feeds-device m d = grind (arith, feeds-hbridge, feeds-coast)

feeds-set_signed_duty :
    (tick : ℕ) (b : Board) (ch : ℕ) (d : ℤ) → feeds (Board.set_signed_duty tick b ch d).1 ≡ false
unfolding Board.set_signed_duty refresh_standby
feeds-set_signed_duty tick b ch d = simp (feeds-append, feeds-device)

pub feeds-set_duty :
    (tick : ℕ) (b : Board) (ch : ℕ) (d : ℤ) → feeds (Board.set_duty tick b ch d).1 ≡ false
unfolding Board.set_duty
feeds-set_duty tick b ch d = feeds-set_signed_duty tick b ch (Board.forward_only d)

pub feeds-motor : (b : Board) (op : Bounds.Op) → feeds (Bounds.apply b op).1 ≡ false
unfolding Bounds.apply Board.brake Board.safety_tick Board.stop_both refresh_standby Device.brake
feeds-motor b (command tick ch d) = feeds-set_signed_duty tick b ch d
feeds-motor b (forward tick ch d) = feeds-set_duty tick b ch d
feeds-motor b (stop ch) = simp (feeds-append, feeds-brake)
feeds-motor b (check now_ms) = grind (arith, feeds-append, feeds-device)

pub feeds-raise :
    (tick : ℕ) (m : Monitor) (code : Fault.SystemFaultCode) (detail : ℕ)
    → feeds (raise tick m code detail).1 ≡ false
unfolding raise Fault.raise Fault.stop_motors
feeds-raise tick m code detail = simp (feeds-append, feeds-set_duty)

-- A round of the health task feeds the watchdog exactly when every task is fresh and no fault is
-- active.
pub health_round-feeds :
    (tick : ℕ) (m : Monitor) (now : ℕ)
    → IsComplete m.health
    → (feeds (health_round tick m now).1 ≡ true)
      ↔ ((Fault.is_active m.faults ≡ false) × ((task : ℕ) → task < 4 → ¬ IsStale m.health now task))
health_round-feeds tick m now c = (
  λ h. ((fed h).0, (check-ok m.health now c).0 (fed h).1),
  λ h. feeds_when h.0 ((check-ok m.health now c).1 h.1),
)
  where
    fed :
        feeds (health_round tick m now).1 ≡ true
        → (Fault.is_active m.faults ≡ false) × ((Health.check m.health now).0 ≡ true)
    fed h =
        unfold health_round in
        ground (arith, h, feeds-raise tick m task_stale (Health.check m.health now).1)

    feeds_when :
        Fault.is_active m.faults ≡ false
        → (Health.check m.health now).0 ≡ true
        → feeds (health_round tick m now).1 ≡ true
    feeds_when a ok = unfold health_round in ground arith

pub feeds-step : (m : Monitor) (e : Event) → IsActive m → feeds (step m e).1 ≡ false
unfolding step health_round
feeds-step m (beat task now) a = refl
feeds-step m (fault tick code detail) a = feeds-raise tick m code detail
feeds-step m (motor op) a = feeds-motor m.board op
feeds-step m (round tick now) a =
    ground (arith, a, feeds-raise tick m task_stale (Health.check m.health now).1)

-- Once a fault is active the watchdog is never fed again, whatever the tasks do.
pub run-unfed : (m : Monitor) (es : List Event) → IsActive m → feeds (run m es).1 ≡ false
unfolding run
run-unfed m [] a = refl
run-unfed m (e ∷ es) a =
    let m' = (step m e).0 in
    rw (feeds-append (step m e).1 (run m' es).1, feeds-step m e a)
      (run-unfed m' es (rw (step-latched m e a) a))
