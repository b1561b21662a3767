-- ===== src/System/Monitor/Latch.antt =====
-- The fault latch under the rounds of the health task.
use nuedc_control_freertos.Prelude.{
  ℕ, ◌<◌, true, false, List, [], ◌∷◌, ◌≡◌, refl, ◌∙◌, arith, ◌==◌, Bool-cases, inl, inr,
}
use nuedc_control_freertos.Motor.Board.Bounds.{IsValid}
use nuedc_control_freertos.Motor.Board.Safety.{IsStopped}
use nuedc_control_freertos.System.Fault
use nuedc_control_freertos.System.Fault.{
  Faults, SystemFaultCode, task_stale, no_fault, stop_motors-IsStopped, is_fault,
}
use nuedc_control_freertos.System.Health
use nuedc_control_freertos.System.Health.Deadlines.{IsComplete, IsStale, check-ok, check-result}
use nuedc_control_freertos.System.Monitor.{
  Monitor, raise, health_round, Event, beat, fault, motor, round, step, run,
}

abbrev pub IsActive : Monitor → Type 0
IsActive m = Fault.is_active m.faults ≡ true

latch_of_active :
    (f : Faults) (code : SystemFaultCode) (detail : ℕ)
    → Fault.is_active f ≡ true
    → Fault.latch f code detail ≡ f
unfolding Fault.latch
latch_of_active f code detail a = rw a

raise-faults :
    (tick : ℕ) (m : Monitor) (code : SystemFaultCode) (detail : ℕ)
    → (raise tick m code detail).0.faults ≡ Fault.latch m.faults code detail
unfolding raise Fault.raise
raise-faults tick m code detail = refl

pub step-latched : (m : Monitor) (e : Event) → IsActive m → (step m e).0.faults ≡ m.faults
unfolding step health_round
step-latched m (beat task now) a = refl
step-latched m (fault tick code detail) a =
    raise-faults tick m code detail ∙ latch_of_active m.faults code detail a
step-latched m (motor op) a = refl
step-latched m (round tick now) a = ground (
  arith,
  raise-faults tick m task_stale (Health.check m.health now).1,
  latch_of_active m.faults task_stale (Health.check m.health now).1 a,
)

-- The first fault is final: whatever happens after it, its code and its detail stay.
run-latched : (m : Monitor) (es : List Event) → IsActive m → (run m es).0.faults ≡ m.faults
unfolding run
run-latched m [] a = refl
run-latched m (e ∷ es) a =
    let kept = step-latched m e a in run-latched (step m e).0 es (rw kept a) ∙ kept

check-fails :
    (m : Monitor) (now task : ℕ)
    → IsComplete m.health
    → task < 4
    → IsStale m.health now task
    → ((Health.check m.health now).0 ≡ false) × (((Health.check m.health now).1 == 0) ≡ false)
check-fails m now task c lt s = elim (Bool-cases (Health.check m.health now).0) [
  | inl ok ↦ absurd ((check-ok m.health now c).0 ok task lt s)
  | inr bad ↦ ground (arith, check-result m.health now)
]

-- A round that finds a stale task leaves a fault behind, both motors at duty 0 and the valid
-- board valid; if there was no fault, the new one is "task stale" with the mask of the check.
pub stale_round :
    (tick : ℕ) (m : Monitor) (now task : ℕ)
    → IsComplete m.health
    → IsValid m.board
    → task < 4
    → IsStale m.health now task
    → IsActive (health_round tick m now).0
      × IsStopped (health_round tick m now).0.board
      × IsValid (health_round tick m now).0.board
      × (Fault.is_active m.faults ≡ false
          → (health_round tick m now).0.faults
            ≡ record { code = task_stale; detail = (Health.check m.health now).1 })
unfolding health_round Fault.raise
stale_round tick m now task c v lt s =
    ground (arith, check-fails m now task c lt s, stop_motors-IsStopped tick m.board v)
