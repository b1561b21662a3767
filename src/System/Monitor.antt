-- ===== src/System/Monitor.antt =====
-- The health task of app/app_tasks.c, joined with what it reads and drives: heartbeats from the
-- other tasks, faults that they raise, and the calls on the motors between its rounds.
pub mod Watchdog
pub mod Latch
use nuedc_control_freertos.Prelude.{
  ℕ, Bool, true, false, not, ◌&&◌, List, [], ◌∷◌, ◌++◌, ◌==◌, if◌then◌else◌,
}
use nuedc_control_freertos.Platform.Calls.{
  Trace, restart_watchdog, set_active_window0, set_halt_stop,
}
use nuedc_control_freertos.Motor.Board.{Board}
use nuedc_control_freertos.Motor.Board.Bounds
use nuedc_control_freertos.System.Fault
use nuedc_control_freertos.System.Fault.{Faults, SystemFaultCode, task_stale}
use nuedc_control_freertos.System.Health
use nuedc_control_freertos.System.Health.{Health}

pub record Monitor : Type 0 where
  pub faults : Faults
  pub health : Health
  pub board : Board

-- `System_Watchdog_Init`
unfoldable pub watchdog_init : Trace
watchdog_init = set_active_window0 ∷ set_halt_stop ∷ []

-- `System_Watchdog_Feed`
unfoldable pub feed : Trace
feed = restart_watchdog ∷ []

-- `System_Fault_Raise` on the shared state
unfoldable pub raise : ℕ → Monitor → SystemFaultCode → ℕ → Monitor × Trace
raise tick m code detail =
    let (f, b, t) = Fault.raise tick m.faults m.board code detail in
    (record m { faults = f; board = b }, t)

-- one round of `health_task`
unfoldable pub health_round : ℕ → Monitor → ℕ → Monitor × Trace
unfolding feed raise
health_round tick m now =
    let (ok, stale_mask) = Health.check m.health now in
    if ok && not (Fault.is_active m.faults)
    then (m, feed)
    else (if not (stale_mask == 0) then raise tick m task_stale stale_mask else (m, []))

pub data Event : Type 0 where
  beat : ℕ → ℕ → Event  -- System_Health_Beat(task, now)
  fault : ℕ → SystemFaultCode → ℕ → Event  -- System_Fault_Raise, at a tick
  motor : Bounds.Op → Event  -- a call of bsp_motor.c
  round : ℕ → ℕ → Event  -- a round of the health task, at a tick

unfoldable pub step : Monitor → Event → Monitor × Trace
step m (beat task now) = (record m { health = Health.beat m.health task now }, [])
step m (fault tick code detail) = raise tick m code detail
step m (motor op) = let (b, t) = Bounds.apply m.board op in (record m { board = b }, t)
step m (round tick now) = health_round tick m now

unfoldable pub run : Monitor → List Event → Monitor × Trace
run m [] = (m, [])
run m (e ∷ es) = let (m', t) = step m e in let (m'', t') = run m' es in (m'', t ++ t')
