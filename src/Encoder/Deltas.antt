-- ===== src/Encoder/Deltas.antt =====
-- No count is lost between the interrupt and the control loop.
use nuedc_control_freertos.Prelude.{
  +ℤ-zero, zero-+ℤ, Bool-cases, inl, inr, ◌++◌, if◌then◌else◌, ◌*◌, parts_of_eq, sym, ap, ℕ, suc,
  ◌+◌, ◌%◌, ◌≤◌, List, [], ◌∷◌, ◌≡◌, ◌∙◌, arith, ℤ, pos, pos_part, neg_part, ◌+ℤ◌, ◌-ℤ◌, ◌≤ℤ◌,
  get_or-All, to_i32_of_IsI32, int_laws, length, ◌==◌,
}
use nuedc_control_freertos.Platform.QuadEncoder.{decode_step, step_table}
use nuedc_control_freertos.Encoder.{
  Pins, Wheel, Encoders, edge_wheel, report_wheel, poll, get_delta, group1_irq, left_state,
}

-- What happens to the encoders, in the order in which the lock lets it happen.
pub data Event : Type 0 where
  irq : (ℕ → ℕ → ℕ) → ℕ → Event  -- the interrupt, with the levels and the pending bits
  polled : (ℕ → ℕ → ℕ) → Event  -- BSP_Encoder_Poll
  fetched : ℕ → Event  -- BSP_Encoder_GetDelta, at a channel

module _ (pins : Pins) where
  unfoldable pub step : Encoders → Event → Encoders
  step e (irq r pending) = group1_irq pins r pending e
  step e (polled r) = poll pins r e
  step e (fetched ch) = (get_delta e ch).0

  -- what the fetches of the left channel return in all
  unfoldable pub left_deltas : Encoders → List Event → ℤ
  left_deltas e [] = pos 0
  left_deltas e (irq r pending ∷ es) = left_deltas (group1_irq pins r pending e) es
  left_deltas e (polled r ∷ es) = left_deltas (poll pins r e) es
  left_deltas e (fetched ch ∷ es) =
      (if ch == 0 then (get_delta e ch).1 else pos 0) +ℤ left_deltas (get_delta e ch).0 es

  unfoldable pub run : Encoders → List Event → Encoders
  run e [] = e
  run e (x ∷ es) = run (step e x) es

-- One step of the decoder moves the count by one at most.
pub decode_step_size :
    (last cur : ℕ) → pos_part (decode_step last cur) + neg_part (decode_step last cur) ≤ 1
unfolding decode_step
decode_step_size last cur =
    get_or-All (λ z. pos_part z + neg_part z ≤ 1) step_table (last % 4 * 4 + cur % 4) (pos 0)
      (omega arith) (omega arith)

-- The total is at most `n` counts away from what was last reported.
pub record Within (n : ℕ) (w : Wheel) : Type 0 where
  pub above : w.total ≤ℤ w.reported +ℤ pos n
  pub below : w.reported ≤ℤ w.total +ℤ pos n

edge_wheel-Within : (n : ℕ) (w : Wheel) (s : ℕ) → Within n w → Within (suc n) (edge_wheel w s)
unfolding edge_wheel
edge_wheel-Within n w s h = record {
  above = omega (int_laws, decode_step_size w.last_state s, h.above, h.below);
  below = omega (int_laws, decode_step_size w.last_state s, h.above, h.below);
}

Within-suc : (n : ℕ) (w : Wheel) → Within n w → Within (suc n) w
Within-suc n w h = record { above = omega (int_laws, h.above); below = omega (int_laws, h.below) }

-- Within range a fetch returns the whole difference.
report_wheel-delta :
    (n : ℕ) (w : Wheel) → Within n w → n ≤ 2147483647 → (report_wheel w).1 +ℤ w.reported ≡ w.total
unfolding report_wheel
report_wheel-delta n w h small =
    rw
      (to_i32_of_IsI32 (w.total -ℤ w.reported)
        (omega (int_laws, h.above, h.below), omega (int_laws, h.above, h.below)))
      (omega int_laws)

report_wheel-Within : (n : ℕ) (w : Wheel) → Within n (report_wheel w).0
unfolding report_wheel
report_wheel-Within n w = record { above = omega int_laws; below = omega int_laws }

+ℤ_take_turns : (a b c s t : ℤ) → a +ℤ c ≡ s → b +ℤ s ≡ t → a +ℤ b +ℤ c ≡ t
+ℤ_take_turns a b c s t h k = omega (int_laws, parts_of_eq _ _ h, parts_of_eq _ _ k)

get_delta-left :
    (n : ℕ) (e : Encoders) (ch : ℕ)
    → Within n e.left
    → n ≤ 2147483647
    → Within n (get_delta e ch).0.left
      × ((if ch == 0 then (get_delta e ch).1 else pos 0) +ℤ e.left.reported
          ≡ (get_delta e ch).0.left.reported)
unfolding get_delta report_wheel
get_delta-left n e ch h small = elim (Bool-cases (ch == 0)) [
  | inl here ↦ rw here (report_wheel-Within n e.left, report_wheel-delta n e.left h small)
  | inr there ↦ rw there (h, zero-+ℤ e.left.reported)
]

module _ (pins : Pins) where
  fetched_left-total :
      (n : ℕ) (e : Encoders)
      → Within n e.left
      → n ≤ 2147483647
      → left_deltas pins e (fetched 0 ∷ []) +ℤ e.left.reported ≡ e.left.total
  unfolding left_deltas get_delta
  fetched_left-total n e h small =
      ap (λ k. k +ℤ e.left.reported) (+ℤ-zero _) ∙ report_wheel-delta n e.left h small

  -- An event other than a fetch moves the left wheel by an edge, or leaves its counts.
  irq-left :
      (r : ℕ → ℕ → ℕ) (pending n : ℕ) (e : Encoders)
      → Within n e.left
      → Within (suc n) (group1_irq pins r pending e).left
        × ((group1_irq pins r pending e).left.reported ≡ e.left.reported)
  unfolding group1_irq edge_wheel
  irq-left r pending n e h =
      ground (arith, edge_wheel-Within n e.left (left_state pins r) h, Within-suc n e.left h)

  polled-left :
      (r : ℕ → ℕ → ℕ) (n : ℕ) (e : Encoders)
      → Within n e.left
      → Within (suc n) (poll pins r e).left × ((poll pins r e).left.reported ≡ e.left.reported)
  unfolding poll
  polled-left r n e h = ground (arith, Within-suc n e.left h, h.above, h.below)

  -- From encoders whose left wheel is within `n` counts of what it last reported, and over any order
  -- of at most 2147483647 - n interrupts, polls and fetches of either channel, followed by a fetch
  -- of the left channel: what had been reported before and what all the fetches of the left channel
  -- return, the last one included, add up to exactly the left total.
  pub left_deltas-total :
      (n : ℕ) (e : Encoders) (es : List Event)
      → Within n e.left
      → n + length es ≤ 2147483647
      → left_deltas pins e (es ++ (fetched 0 ∷ [])) +ℤ e.left.reported ≡ (run pins e es).left.total
  unfolding left_deltas run step
  left_deltas-total n e [] h small = fetched_left-total n e h (omega arith)
  left_deltas-total n e (irq r pending ∷ es) h small =
      let e' = group1_irq pins r pending e in
      let (h', same) = irq-left r pending n e h in
      ap (λ k. left_deltas pins e' (es ++ (fetched 0 ∷ [])) +ℤ k) (sym same)
      ∙ left_deltas-total (suc n) e' es h' (omega arith)
  left_deltas-total n e (polled r ∷ es) h small =
      let e' = poll pins r e in
      let (h', same) = polled-left r n e h in
      ap (λ k. left_deltas pins e' (es ++ (fetched 0 ∷ [])) +ℤ k) (sym same)
      ∙ left_deltas-total (suc n) e' es h' (omega arith)
  left_deltas-total n e (fetched ch ∷ es) h small =
      let e' = (get_delta e ch).0 in
      let (h', told) = get_delta-left n e ch h (omega arith) in
      +ℤ_take_turns (if ch == 0 then (get_delta e ch).1 else pos 0)
        (left_deltas pins e' (es ++ (fetched 0 ∷ []))) e.left.reported e'.left.reported
        (run pins e' es).left.total told (left_deltas-total n e' es h' (omega arith))
