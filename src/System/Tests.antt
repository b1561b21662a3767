-- ===== src/System/Tests.antt =====
-- Examples of the health monitor and the fault latch.
use nuedc_control_freertos.Prelude.{
  ℕ, ◌/◌, ◌%◌, ◌^◌, ◌<◌, true, false, List, [], ◌∷◌, ◌≡◌, ◌↔◌, refl, arith, pos,
}
use nuedc_control_freertos.Motor.Board.Bounds
use nuedc_control_freertos.Motor.Board.Bounds.{IsValid}
use nuedc_control_freertos.Motor.Board.Safety.{IsStopped}
use nuedc_control_freertos.Motor.Tests.{running, running-IsValid}
use nuedc_control_freertos.System.Fault
use nuedc_control_freertos.System.Fault.{
  Faults, no_fault, task_stale, imu_fault, stop_motors, stop_motors-IsStopped,
}
use nuedc_control_freertos.System.Health
use nuedc_control_freertos.System.Health.{Health}
use nuedc_control_freertos.System.Health.Deadlines.{IsStale, check-mask, check-ok}
use nuedc_control_freertos.System.Monitor.{
  Monitor, health_round, Event, beat, fault, motor, round, run,
}
use nuedc_control_freertos.System.Monitor.Latch.{IsActive, stale_round}
use nuedc_control_freertos.System.Monitor.Watchdog.{feeds, run-unfed, health_round-feeds}

-- at tick 3000 the control task, number 2, is 150 ms old
abbrev late : Health
late = record { started_ms = 0; beats = 2990 ∷ 2980 ∷ 2850 ∷ 2800 ∷ [] }

abbrev quiet : Monitor
quiet = record { faults = record { code = no_fault; detail = 0 }; health = late; board = running }

abbrev faulty : Monitor
faulty = record quiet { faults = record { code = imu_fault; detail = 9 } }

faulty-IsActive : IsActive faulty
unfolding Fault.is_active
faulty-IsActive = refl

abbrev story : List Event
story =
    beat 2 3000
    ∷ round 3000 3005
    ∷ fault 3006 task_stale 4
    ∷ motor (Bounds.forward 3010 0 (pos 300))
    ∷ []

run-unfed_example : feeds (run faulty story).1 ≡ false
run-unfed_example = run-unfed faulty story faulty-IsActive

health_round-feeds_example :
    (feeds (health_round 3000 quiet 3000).1 ≡ true)
    ↔ ((Fault.is_active quiet.faults ≡ false) × ((task : ℕ) → task < 4 → ¬ IsStale late 3000 task))
health_round-feeds_example = health_round-feeds 3000 quiet 3000 refl

control_is_late : (Health.check late 3000).1 ≡ 4
unfolding Health.check
control_is_late = refl

stale_round_example :
    IsActive (health_round 3000 quiet 3000).0
    × IsStopped (health_round 3000 quiet 3000).0.board
    × IsValid (health_round 3000 quiet 3000).0.board
    × (Fault.is_active quiet.faults ≡ false
        → (health_round 3000 quiet 3000).0.faults
          ≡ record { code = task_stale; detail = (Health.check late 3000).1 })
stale_round_example = stale_round 3000 quiet 3000 2 refl running-IsValid (omega arith) (omega arith)

check-mask_example : ((Health.check late 3000).1 / 2 ^ 2 % 2 ≡ 1) ↔ IsStale late 3000 2
check-mask_example = check-mask late 3000 2 refl (omega arith)

check-ok_example :
    ((Health.check late 3000).0 ≡ true) ↔ ((task : ℕ) → task < 4 → ¬ IsStale late 3000 task)
check-ok_example = check-ok late 3000 refl
