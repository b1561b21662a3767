-- ===== src/Platform/Poll.antt =====
-- The wait loops of the drivers. What a serial driver does is the history of its DriverLib calls,
-- the newest first, and what a read answers is a function of that history: the hardware is an
-- argument of the drivers, and nothing is assumed of it here.
use nuedc_control_freertos.Prelude.{
  ℕ, zero, suc, ◌+◌, ◌≤◌, Bool, true, not, List, ◌∷◌, ◌≡◌, ◌∙◌, arith, length, Bool-cases, inl, inr,
  if◌then◌else◌,
}

-- `while (busy()) { if (timeout-- == 0u) return -1; }`: the result says whether the loop ended by
-- its test.
unfoldable pub wait_while : {C : Type 0} → C → (List C → Bool) → ℕ → List C → List C × Bool
wait_while call busy zero h = (call ∷ h, not (busy h))
wait_while call busy (suc timeout) h =
    let rest = wait_while call busy timeout (call ∷ h) in if busy h then rest else (call ∷ h, true)

module _ {C A : Type 0} (f : List C → A) (call : C) where
  -- A wait changes nothing that its calls leave alone.
  pub wait_while-keeps :
      ((h : List C) → f (call ∷ h) ≡ f h)
      → (busy : List C → Bool) (timeout : ℕ) (h : List C)
      → f (wait_while call busy timeout h).0 ≡ f h
  unfolding wait_while
  wait_while-keeps same busy zero h = same h
  wait_while-keeps same busy (suc timeout) h = elim (Bool-cases (busy h)) [
    | inl wait ↦ rw wait (wait_while-keeps same busy timeout (call ∷ h) ∙ same h)
    | inr done ↦ rw done (same h)
  ]

-- A wait reads at most once more than its timeout.
pub wait_while_bound :
    {C : Type 0} (call : C) (busy : List C → Bool) (timeout : ℕ) (h : List C)
    → length (wait_while call busy timeout h).0 ≤ length h + timeout + 1
unfolding wait_while
wait_while_bound call busy zero h = omega arith
wait_while_bound call busy (suc timeout) h = elim (Bool-cases (busy h)) [
  | inl wait ↦ rw wait (omega (arith, wait_while_bound call busy timeout (call ∷ h)))
  | inr done ↦ rw done (omega arith)
]
