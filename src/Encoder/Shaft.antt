-- ===== src/Encoder/Shaft.antt =====
-- The left count of bsp_encoder.c against the turns of its shaft.
use nuedc_control_freertos.Prelude.{
  +ℤ-zero, ℕ, Bool, true, false, not, List, [], ◌∷◌, ◌≡◌, refl, ap, ◌∙◌, sym, ◌⊎◌, inl, inr, arith,
  ℤ, ◌+ℤ◌, +ℤ_shift, bit_and, bit_or, ◌==◌,
}
use nuedc_control_freertos.Platform.QuadEncoder.Tracking.{
  Turn, still, turn_step, phases, end_position, decode-phases,
}
use nuedc_control_freertos.Encoder.{
  Pins, Wheel, Encoders, edge_wheel, group1_irq, poll, get_delta, left_state,
}
use nuedc_control_freertos.Encoder.Deltas.{Event, irq, polled, fetched, step, run}

module _ (pins : Pins) where
  -- the test that an interrupt is pending on a pin of the left wheel
  abbrev pub left_hit : ℕ → Bool
  left_hit pending = not (bit_and pending (bit_or pins.left_a pins.left_b) == 0)

  -- An interrupt on the left wheel sees its shaft one turn further; at any other event the shaft
  -- stands still.
  abbrev pub Attends : ℤ → Event → Turn → Type 0
  Attends p (irq r pending) t =
      (left_hit pending ≡ true) × (left_state pins r ≡ phases (p +ℤ turn_step t))
      ⊎ (left_hit pending ≡ false) × (t ≡ still)
  Attends p (polled r) t = t ≡ still
  Attends p (fetched ch) t = t ≡ still

  abbrev pub AttendsAll : ℤ → List Event → List Turn → Type 0
  AttendsAll p [] [] = Unit
  AttendsAll p [] (t ∷ ts) = ⊥
  AttendsAll p (x ∷ es) [] = ⊥
  AttendsAll p (x ∷ es) (t ∷ ts) = Attends p x t × AttendsAll (p +ℤ turn_step t) es ts

  -- The left wheel counts a turn and remembers the phases behind it.
  abbrev Follows : Wheel → ℤ → Turn → Wheel → Type 0
  Follows w p t w' =
      (w'.total ≡ w.total +ℤ turn_step t) × (w'.last_state ≡ phases (p +ℤ turn_step t))

  edge-Follows :
      (w : Wheel) (p : ℤ) (t : Turn) (s : ℕ)
      → w.last_state ≡ phases p
      → s ≡ phases (p +ℤ turn_step t)
      → Follows w p t (edge_wheel w s)
  unfolding edge_wheel
  edge-Follows w p t s l e = (ap (λ n. w.total +ℤ n) (simp (l, e) (decode-phases p t)), e)

  rest-Follows :
      (w w' : Wheel) (p : ℤ) (t : Turn)
      → w.last_state ≡ phases p
      → w'.total ≡ w.total
      → w'.last_state ≡ w.last_state
      → t ≡ still
      → Follows w p t w'
  rest-Follows w w' p t l same state e =
      rw e (same ∙ sym (+ℤ-zero w.total), state ∙ l ∙ ap phases (sym (+ℤ-zero p)))

  step-Follows :
      (e : Encoders) (p : ℤ) (x : Event) (t : Turn)
      → e.left.last_state ≡ phases p
      → Attends p x t
      → Follows e.left p t (step pins e x).left
  unfolding step group1_irq poll get_delta
  step-Follows e p (irq r pending) t l (inl (hit, seen)) =
      rw hit (edge-Follows e.left p t (left_state pins r) l seen)
  step-Follows e p (irq r pending) t l (inr (miss, rest)) =
      rw miss (rest-Follows e.left e.left p t l refl refl rest)
  step-Follows e p (polled r) t l rest =
      rest-Follows e.left (poll pins r e).left p t l (ground arith) (ground arith) rest
  step-Follows e p (fetched ch) t l rest =
      rest-Follows e.left (get_delta e ch).0.left p t l (ground arith) (ground arith) rest

  -- If every quarter turn of the left shaft has its interrupt, then over any order of interrupts
  -- of either wheel, polls and fetches the left total grows by exactly what the shaft has turned.
  pub run-end :
      (e : Encoders) (p : ℤ) (es : List Event) (ts : List Turn)
      → e.left.last_state ≡ phases p
      → AttendsAll p es ts
      → (run pins e es).left.total +ℤ p ≡ e.left.total +ℤ end_position p ts
  unfolding run
  run-end e p [] [] l a = refl
  run-end e p [] (t ∷ ts) l a = absurd a
  run-end e p (x ∷ es) [] l a = absurd a
  run-end e p (x ∷ es) (t ∷ ts) l (now, later) =
      let q : ℤ = p +ℤ turn_step t in
      let (counted, state) = step-Follows e p x t l now in
      +ℤ_shift (run pins (step pins e x) es).left.total (end_position q ts) e.left.total p
        (turn_step t)
        (run-end (step pins e x) q es ts state later ∙ ap (λ n. n +ℤ end_position q ts) counted)
