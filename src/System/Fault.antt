-- ===== src/System/Fault.antt =====
-- system/fault_manager.c: the first fault is kept, and every fault stops the motors.
use nuedc_control_freertos.Prelude.{
  ℕ, Bool, true, false, ◌++◌, ◌≡◌, refl, arith, pos, if◌then◌else◌,
}
use nuedc_control_freertos.Platform.Calls.{Trace}
use nuedc_control_freertos.Motor.Board
use nuedc_control_freertos.Motor.Board.{Board}
use nuedc_control_freertos.Motor.Board.Bounds.{IsValid, set_duty-Commanded, set_duty-IsValid}
use nuedc_control_freertos.Motor.Board.Safety.{IsStopped}

pub data SystemFaultCode : Type 0 where
  no_fault task_stale imu_fault stack_fault heap_fault : SystemFaultCode

abbrev pub is_fault : SystemFaultCode → Bool
is_fault no_fault = false
is_fault _ = true

pub record Faults : Type 0 where
  pub code : SystemFaultCode
  pub detail : ℕ

unfoldable pub init : Faults
init = record { code = no_fault; detail = 0 }

unfoldable pub is_active : Faults → Bool
is_active f = is_fault f.code

-- the two calls of `BSP_Motor_SetDuty` with duty 0
unfoldable pub stop_motors : ℕ → Board → Board × Trace
stop_motors tick b =
    let (b', t) = Board.set_duty tick b 0 (pos 0) in
    let (b'', t') = Board.set_duty tick b' 1 (pos 0) in (b'', t ++ t')

unfoldable pub latch : Faults → SystemFaultCode → ℕ → Faults
latch f code detail = if is_active f then f else record { code = code; detail = detail }

unfoldable pub raise : ℕ → Faults → Board → SystemFaultCode → ℕ → Faults × Board × Trace
unfolding latch is_active
raise tick f b code detail = let (b', t) = stop_motors tick b in (latch f code detail, b', t)

unfoldable pub get : Faults → SystemFaultCode × ℕ
get f = (f.code, f.detail)

forward_only-zero : Board.forward_only (pos 0) ≡ pos 0
unfolding Board.forward_only
forward_only-zero = refl

-- Stopping the motors leaves both at duty 0, with the last command given now.
pub stop_motors-IsStopped :
    (tick : ℕ) (b : Board)
    → IsValid b
    → IsValid (stop_motors tick b).0
      × IsStopped (stop_motors tick b).0
      × ((stop_motors tick b).0.last_command_ms ≡ tick)
unfolding stop_motors Board.get_device
stop_motors-IsStopped tick b v =
    let (b', t) = Board.set_duty tick b 0 (pos 0) in
    let v' = set_duty-IsValid tick b 0 (pos 0) v in
    let first = set_duty-Commanded tick b 0 (pos 0) v in
    let second = set_duty-Commanded tick b' 1 (pos 0) v' in
    (
      set_duty-IsValid tick b' 1 (pos 0) v',
      ground (arith, forward_only-zero, first.given, second.kept, second.given),
      second.stamped,
    )
