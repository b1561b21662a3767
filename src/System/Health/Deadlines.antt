-- ===== src/System/Health/Deadlines.antt =====
-- What the heartbeat monitor reports.
use native.Mathlib.Decide.{dec_le}
use nuedc_control_freertos.Prelude.{
  ◌==◌, Bool-cases, inl, inr, ℕ, zero, suc, ◌+◌, ◌*◌, ◌/◌, ◌%◌, ◌^◌, ◌≤◌, ◌<◌, true, false, List,
  [], ◌∷◌, ◌≡◌, ◌↔◌, refl, arith, length, get_or, leb, ltb, sub_u32, length-set, if◌then◌else◌,
}
use nuedc_control_freertos.System.Health.{
  Health, deadline_ms, beat, stale_from, check, startup_grace_ms,
}

-- One time for each task.
abbrev pub IsComplete : Health → Type 0
IsComplete h = length h.beats ≡ 4

pub beat-IsComplete :
    (h : Health) (task now_ms : ℕ) → IsComplete h → IsComplete (beat h task now_ms)
unfolding beat
beat-IsComplete h task now_ms c = ground (arith, length-set h.beats task now_ms)

-- The grace period is over, and the task's last heartbeat is older than its deadline allows.
abbrev pub IsStale : Health → ℕ → ℕ → Type 0
IsStale h now_ms task =
    (2000 ≤ sub_u32 now_ms h.started_ms)
    × (get_or deadline_ms task 0 < sub_u32 now_ms (get_or h.beats task 0))

late_bit : ℕ → ℕ → ℕ → ℕ
late_bit now_ms d b = if ltb d (sub_u32 now_ms b) then 1 else 0

-- The mask is the binary number of the late tasks.
stale_from-digits :
    (now_ms a b c d : ℕ)
    → stale_from now_ms 0 0 (a ∷ b ∷ c ∷ d ∷ []) deadline_ms
      ≡ late_bit now_ms 100 a
        + 2 * late_bit now_ms 50 b
        + 4 * late_bit now_ms 100 c
        + 8 * late_bit now_ms 500 d
unfolding stale_from late_bit
stale_from-digits now_ms a b c d = ground arith

-- the list of four times that a complete monitor holds
data Four : List ℕ → Type 0 where
  four : (a b c d : ℕ) → Four (a ∷ b ∷ c ∷ d ∷ [])

Four-of_length : (bs : List ℕ) → length bs ≡ 4 → Four bs
Four-of_length [] h = absurd (omega arith)
Four-of_length (a ∷ []) h = absurd (omega arith)
Four-of_length (a ∷ b ∷ []) h = absurd (omega arith)
Four-of_length (a ∷ b ∷ c ∷ []) h = absurd (omega arith)
Four-of_length (a ∷ b ∷ c ∷ d ∷ []) h = four a b c d
Four-of_length (a ∷ b ∷ c ∷ d ∷ e ∷ bs) h = absurd (omega arith)

mask-bit :
    (now_ms task : ℕ) (bs : List ℕ)
    → Four bs
    → task < 4
    → (stale_from now_ms 0 0 bs deadline_ms / 2 ^ task % 2 ≡ 1)
      ↔ (get_or deadline_ms task 0 < sub_u32 now_ms (get_or bs task 0))
mask-bit now_ms zero _ (four a b c d) h =
    unfold late_bit in ground (arith, stale_from-digits now_ms a b c d)
mask-bit now_ms (suc zero) _ (four a b c d) h =
    unfold late_bit in ground (arith, stale_from-digits now_ms a b c d)
mask-bit now_ms (suc (suc zero)) _ (four a b c d) h =
    unfold late_bit in ground (arith, stale_from-digits now_ms a b c d)
mask-bit now_ms (suc (suc (suc zero))) _ (four a b c d) h =
    unfold late_bit in ground (arith, stale_from-digits now_ms a b c d)
mask-bit now_ms (suc (suc (suc (suc task)))) _ (four a b c d) h = absurd (omega arith)

zero-bit : (task : ℕ) → task < 4 → 0 / 2 ^ task % 2 ≡ 0
zero-bit zero h = refl
zero-bit (suc zero) h = refl
zero-bit (suc (suc zero)) h = refl
zero-bit (suc (suc (suc zero))) h = refl
zero-bit (suc (suc (suc (suc task)))) h = absurd (omega arith)

-- Bit `task` of the reported mask is set exactly when the start-up grace of 2000 ms is over and
-- the task's last heartbeat is older than its deadline.
pub check-mask :
    (h : Health) (now_ms task : ℕ)
    → IsComplete h
    → task < 4
    → ((check h now_ms).1 / 2 ^ task % 2 ≡ 1) ↔ IsStale h now_ms task
unfolding check
check-mask h now_ms task c lt =
    ground (arith, mask-bit now_ms task h.beats (Four-of_length h.beats c) lt, zero-bit task lt)

mask-zero :
    (now_ms : ℕ) (bs : List ℕ)
    → Four bs
    → ((task : ℕ) → task < 4 → sub_u32 now_ms (get_or bs task 0) ≤ get_or deadline_ms task 0)
    → stale_from now_ms 0 0 bs deadline_ms ≡ 0
mask-zero now_ms _ (four a b c d) f =
    unfold late_bit in
    ground (
      arith,
      stale_from-digits now_ms a b c d,
      f 0 (omega arith),
      f 1 (omega arith),
      f 2 (omega arith),
      f 3 (omega arith),
    )

pub check-result : (h : Health) (now_ms : ℕ) → (check h now_ms).0 ≡ ((check h now_ms).1 == 0)
unfolding check
check-result h now_ms = refl

check_after_grace :
    (h : Health) (now_ms : ℕ)
    → leb startup_grace_ms (sub_u32 now_ms h.started_ms) ≡ true
    → (check h now_ms).1 ≡ stale_from now_ms 0 0 h.beats deadline_ms
unfolding check
check_after_grace h now_ms e = rw e

check_in_grace :
    (h : Health) (now_ms : ℕ)
    → leb startup_grace_ms (sub_u32 now_ms h.started_ms) ≡ false
    → (check h now_ms).1 ≡ 0
unfolding check
check_in_grace h now_ms e = rw e

not_stale_le :
    (h : Health) (now_ms task : ℕ)
    → leb startup_grace_ms (sub_u32 now_ms h.started_ms) ≡ true
    → ¬ IsStale h now_ms task
    → sub_u32 now_ms (get_or h.beats task 0) ≤ get_or deadline_ms task 0
not_stale_le h now_ms task over f =
    elim (dec_le (sub_u32 now_ms (get_or h.beats task 0)) (get_or deadline_ms task 0)) [
      | yes p ↦ p
      | no p ↦ absurd (f (ground arith, omega arith))
    ]

-- The check succeeds exactly when no task is stale.
pub check-ok :
    (h : Health) (now_ms : ℕ)
    → IsComplete h
    → ((check h now_ms).0 ≡ true) ↔ ((task : ℕ) → task < 4 → ¬ IsStale h now_ms task)
check-ok h now_ms c = (sound, complete)
  where
    sound : (check h now_ms).0 ≡ true → (task : ℕ) → task < 4 → ¬ IsStale h now_ms task
    sound ok task lt stale =
        let bit = (check-mask h now_ms task c lt).1 stale in
        ground (arith, check-result h now_ms, bit, zero-bit task lt)

    complete : ((task : ℕ) → task < 4 → ¬ IsStale h now_ms task) → (check h now_ms).0 ≡ true
    complete fresh = elim (Bool-cases (leb startup_grace_ms (sub_u32 now_ms h.started_ms))) [
      | inl over ↦ ground (
        arith,
        check-result h now_ms,
        check_after_grace h now_ms over,
        mask-zero now_ms h.beats (Four-of_length h.beats c)
            (λ task lt. not_stale_le h now_ms task over (fresh task lt)),
      )
      | inr early ↦ ground (arith, check-result h now_ms, check_in_grace h now_ms early)
    ]
