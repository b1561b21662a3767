-- ===== src/Platform/QuadEncoder/Tracking.antt =====
-- What the quadrature decoder counts: the turns of a shaft whose two phases are sampled.
use nuedc_control_freertos.Prelude.{
  ap, ◌∙◌, ◌*ℤ◌, ℕ, zero, suc, ◌+◌, ◌%◌, ◌<◌, List, [], ◌∷◌, ◌≡◌, refl, arith, ℤ, pos, negsuc, ◌+ℤ◌,
  +ℤ_shift, wrap, ◌≤◌, ◌≤ℤ◌, length, to_i32, to_i32_of_IsI32, int_laws,
}
use nuedc_control_freertos.Platform.QuadEncoder.{
  DrvQuadEncoder, DrvQuadEncoderConfig, read_state, poll, decode_step,
}

-- One sampling interval turns the shaft by a quarter period either way, or not at all.
pub data Turn : Type 0 where
  forward still backward : Turn

abbrev pub turn_step : Turn → ℤ
turn_step forward = pos 1
turn_step still = pos 0
turn_step backward = negsuc 0

-- The two phases at a quarter: 00, 01, 11, 10.
abbrev pub quarter_state : ℕ → ℕ
quarter_state zero = 0
quarter_state (suc zero) = 1
quarter_state (suc (suc zero)) = 3
quarter_state (suc (suc (suc _))) = 2

-- the phases of a shaft at a position
abbrev pub phases : ℤ → ℕ
phases p = quarter_state (wrap 4 p)

-- the positions that a list of turns passes, and where it ends
abbrev pub end_position : ℤ → List Turn → ℤ
end_position p [] = p
end_position p (t ∷ ts) = end_position (p +ℤ turn_step t) ts

-- the decoder over a list of samples: its count and its last state
abbrev pub count_samples : ℤ → ℕ → List ℕ → ℤ
count_samples n last [] = n
count_samples n last (s ∷ ss) = count_samples (n +ℤ decode_step last s) s ss

abbrev pub samples : ℤ → List Turn → List ℕ
samples p [] = []
samples p (t ∷ ts) = phases (p +ℤ turn_step t) ∷ samples (p +ℤ turn_step t) ts

-- the quarter that a turn leads to
abbrev turned : ℕ → Turn → ℕ
turned q forward = (q + 1) % 4
turned q still = q
turned q backward = (q + 3) % 4

wrap-turn : (p : ℤ) (t : Turn) → wrap 4 (p +ℤ turn_step t) ≡ turned (wrap 4 p) t
unfolding ◌+ℤ◌
wrap-turn p t = ground arith

wrap-lt : (p : ℤ) → wrap 4 p < 4
wrap-lt p = ground arith

decode-turned :
    (q : ℕ) (t : Turn)
    → q < 4
    → decode_step (quarter_state q) (quarter_state (turned q t)) ≡ turn_step t
unfolding decode_step
decode-turned zero forward h = refl
decode-turned zero still h = refl
decode-turned zero backward h = refl
decode-turned (suc zero) forward h = refl
decode-turned (suc zero) still h = refl
decode-turned (suc zero) backward h = refl
decode-turned (suc (suc zero)) forward h = refl
decode-turned (suc (suc zero)) still h = refl
decode-turned (suc (suc zero)) backward h = refl
decode-turned (suc (suc (suc zero))) forward h = refl
decode-turned (suc (suc (suc zero))) still h = refl
decode-turned (suc (suc (suc zero))) backward h = refl
decode-turned (suc (suc (suc (suc q)))) t h = absurd (omega arith)

pub decode-phases :
    (p : ℤ) (t : Turn) → decode_step (phases p) (phases (p +ℤ turn_step t)) ≡ turn_step t
decode-phases p t = rw wrap-turn (decode-turned (wrap 4 p) t (wrap-lt p))

-- A decoder that starts at the phases of a position and samples the shaft at least once in every
-- quarter of a period counts from `n` what the shaft turns.
pub count_samples-end :
    (n p : ℤ) (ts : List Turn)
    → count_samples n (phases p) (samples p ts) +ℤ p ≡ n +ℤ end_position p ts
count_samples-end n p [] = refl
count_samples-end n p (t ∷ ts) =
    rw (decode-phases p t, count_samples)
      (+ℤ_shift _ (end_position (p +ℤ turn_step t) ts) n p (turn_step t)
        (count_samples-end (n +ℤ turn_step t) (p +ℤ turn_step t) ts))

-- the polls of an encoder, each with the levels of its moment
unfoldable pub poll_all : DrvQuadEncoder → List (ℕ → ℕ → ℕ) → DrvQuadEncoder
poll_all e [] = e
poll_all e (r ∷ rs) = poll_all (poll r e) rs

-- The levels that the polls read are those of a shaft that turns from a position.
abbrev pub Shows : DrvQuadEncoderConfig → ℤ → List (ℕ → ℕ → ℕ) → List Turn → Type 0
Shows c p [] [] = Unit
Shows c p [] (t ∷ ts) = ⊥
Shows c p (r ∷ rs) [] = ⊥
Shows c p (r ∷ rs) (t ∷ ts) =
    (read_state r c ≡ phases (p +ℤ turn_step t)) × Shows c (p +ℤ turn_step t) rs ts

*ℤ-one : (a : ℤ) → a *ℤ pos 1 ≡ a
unfolding ◌*ℤ◌
*ℤ-one a = ground arith

-- the delta not yet fetched is at most `n` counts away from 0
pub record DeltaWithin (n : ℕ) (e : DrvQuadEncoder) : Type 0 where
  pub above : e.delta ≤ℤ pos n
  pub below : pos 0 ≤ℤ e.delta +ℤ pos n

delta-turn :
    (n : ℕ) (x : ℤ) (t : Turn)
    → x ≤ℤ pos n
    → pos 0 ≤ℤ x +ℤ pos n
    → n + 1 ≤ 2147483647
    → (to_i32 (x +ℤ turn_step t) ≡ x +ℤ turn_step t)
      × (x +ℤ turn_step t ≤ℤ pos (suc n))
      × (pos 0 ≤ℤ x +ℤ turn_step t +ℤ pos (suc n))
delta-turn n x forward above below small = (
  to_i32_of_IsI32 (x +ℤ pos 1) (omega (int_laws, above, below), omega (int_laws, above, below)),
  omega (int_laws, above, below),
  omega (int_laws, above, below),
)
delta-turn n x still above below small = (
  to_i32_of_IsI32 (x +ℤ pos 0) (omega (int_laws, above, below), omega (int_laws, above, below)),
  omega (int_laws, above, below),
  omega (int_laws, above, below),
)
delta-turn n x backward above below small = (
  to_i32_of_IsI32 (x +ℤ negsuc 0) (omega (int_laws, above, below), omega (int_laws, above, below)),
  omega (int_laws, above, below),
  omega (int_laws, above, below),
)

-- What one poll does on a turn of the shaft.
record Polled (n : ℕ) (r : ℕ → ℕ → ℕ) (e : DrvQuadEncoder) (p : ℤ) (t : Turn) : Type 0 where
  total : (poll r e).total ≡ e.total +ℤ turn_step t
  delta : (poll r e).delta ≡ e.delta +ℤ turn_step t
  within : DeltaWithin (suc n) (poll r e)
  state : (poll r e).last_state ≡ phases (p +ℤ turn_step t)
  same_direction : e.config.direction ≡ pos 1 → (poll r e).config.direction ≡ pos 1
  shows :
      (rs : List (ℕ → ℕ → ℕ)) (ts : List Turn)
      → Shows e.config (p +ℤ turn_step t) rs ts
      → Shows (poll r e).config (p +ℤ turn_step t) rs ts

poll-turn :
    (n : ℕ) (r : ℕ → ℕ → ℕ) (e : DrvQuadEncoder) (p : ℤ) (t : Turn)
    → DeltaWithin n e
    → n + 1 ≤ 2147483647
    → e.config.direction ≡ pos 1
    → e.last_state ≡ phases p
    → read_state r e.config ≡ phases (p +ℤ turn_step t)
    → Polled n r e p t
unfolding poll
poll-turn n r e p t w small d l seen = record {
  total = ap (λ k. e.total +ℤ k) step;
  delta = counted ∙ near.0;
  within = record { above = rw (counted ∙ near.0) near.1; below = rw (counted ∙ near.0) near.2 };
  state = seen;
  same_direction = λ h. h;
  shows = λ rs ts h. h;
}
  where
    near :
        (to_i32 (e.delta +ℤ turn_step t) ≡ e.delta +ℤ turn_step t)
        × (e.delta +ℤ turn_step t ≤ℤ pos (suc n))
        × (pos 0 ≤ℤ e.delta +ℤ turn_step t +ℤ pos (suc n))
    near = delta-turn n e.delta t w.above w.below small

    step : decode_step e.last_state (read_state r e.config) *ℤ e.config.direction ≡ turn_step t
    step = simp (l, seen, d) (*ℤ-one _ ∙ decode-phases p t)

    counted : (poll r e).delta ≡ to_i32 (e.delta +ℤ turn_step t)
    counted = ap (λ k. to_i32 (e.delta +ℤ k)) step

-- An encoder of direction 1 that starts at the phases of its shaft and is polled once after each
-- turn by at most a quarter of a period, with a delta within `n` counts of 0 and at most
-- 2147483647 - n polls, adds to its total, and to the delta not yet fetched, exactly what the shaft
-- has turned.
pub poll_all-end :
    (n : ℕ) (e : DrvQuadEncoder) (p : ℤ) (rs : List (ℕ → ℕ → ℕ)) (ts : List Turn)
    → DeltaWithin n e
    → n + length rs ≤ 2147483647
    → e.config.direction ≡ pos 1
    → e.last_state ≡ phases p
    → Shows e.config p rs ts
    → ((poll_all e rs).total +ℤ p ≡ e.total +ℤ end_position p ts)
      × ((poll_all e rs).delta +ℤ p ≡ e.delta +ℤ end_position p ts)
unfolding poll_all
poll_all-end n e p [] [] w small d l s = (refl, refl)
poll_all-end n e p [] (t ∷ ts) w small d l s = absurd s
poll_all-end n e p (r ∷ rs) [] w small d l s = absurd s
poll_all-end n e p (r ∷ rs) (t ∷ ts) w small d l (seen, rest) =
    let q : ℤ = p +ℤ turn_step t in
    let one = poll-turn n r e p t w (omega arith) d l seen in
    let all =
      poll_all-end (suc n) (poll r e) q rs ts one.within (omega arith) (one.same_direction d)
        one.state (one.shows rs ts rest) in
    (
      +ℤ_shift (poll_all (poll r e) rs).total (end_position q ts) e.total p (turn_step t)
          (all.0 ∙ ap (λ n. n +ℤ end_position q ts) one.total),
      +ℤ_shift (poll_all (poll r e) rs).delta (end_position q ts) e.delta p (turn_step t)
          (all.1 ∙ ap (λ n. n +ℤ end_position q ts) one.delta),
    )
