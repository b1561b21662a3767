-- ===== src/System/Health.antt =====
-- system/health_monitor.c. `s_last_beat_ms` is the list `beats`, of one time for each of the four
-- tasks; times are 32-bit ticks.
pub mod Deadlines
use nuedc_control_freertos.Prelude.{
  ℕ, suc, ◌+◌, ◌^◌, Bool, List, [], ◌∷◌, ◌==◌, leb, ltb, sub_u32, bit_or, set, replicate,
  if◌then◌else◌,
}

-- The numbers of `HealthTaskId_t`.
abbrev pub task_imu : ℕ
task_imu = 0

abbrev pub task_fast_io : ℕ
task_fast_io = 1

abbrev pub task_control : ℕ
task_control = 2

abbrev pub task_telemetry : ℕ
task_telemetry = 3

abbrev pub task_count : ℕ
task_count = 4

abbrev pub startup_grace_ms : ℕ
startup_grace_ms = 2000

abbrev pub deadline_ms : List ℕ
deadline_ms = 100 ∷ 50 ∷ 100 ∷ 500 ∷ []

pub record Health : Type 0 where
  pub started_ms : ℕ
  pub beats : List ℕ

unfoldable pub init : ℕ → Health
init now_ms = record { started_ms = now_ms; beats = replicate task_count now_ms }

unfoldable pub beat : Health → ℕ → ℕ → Health
beat h task now_ms = if ltb task task_count then record h { beats = set h.beats task now_ms } else h

-- the loop over the tasks, from the task `i` on
unfoldable pub stale_from : ℕ → ℕ → ℕ → List ℕ → List ℕ → ℕ
stale_from now_ms i mask [] _ = mask
stale_from now_ms i mask (b ∷ bs) [] = mask
stale_from now_ms i mask (b ∷ bs) (d ∷ ds) =
    stale_from now_ms (i + 1) (if ltb d (sub_u32 now_ms b) then bit_or mask (2 ^ i) else mask) bs ds

unfoldable pub stale_mask : Health → ℕ → ℕ
unfolding stale_from
stale_mask h now_ms =
    if leb startup_grace_ms (sub_u32 now_ms h.started_ms)
    then stale_from now_ms 0 0 h.beats deadline_ms
    else 0

-- the result and what goes through `stale_mask`
unfoldable pub check : Health → ℕ → Bool × ℕ
unfolding stale_mask
check h now_ms = let mask = stale_mask h now_ms in (mask == 0, mask)
