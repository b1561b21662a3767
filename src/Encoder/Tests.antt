-- ===== src/Encoder/Tests.antt =====
-- Examples of the encoders: a left wheel that turns twice forward and once back.
use nuedc_control_freertos.Prelude.{ℕ, List, [], ◌∷◌, ◌++◌, ◌≡◌, refl, inl, inr, arith, pos, ◌+ℤ◌}
use nuedc_control_freertos.Platform.QuadEncoder.Tracking.{forward, still, backward}
use nuedc_control_freertos.Encoder.{Pins, Wheel, Encoders, left_state, encoder_state}
use nuedc_control_freertos.Encoder.Deltas.{
  Event, irq, polled, fetched, left_deltas, run, left_deltas-total,
}
use nuedc_control_freertos.Encoder.Shaft.{run-end}

abbrev pins : Pins
pins = record { left_port = 1; left_a = 2; left_b = 1; right_port = 1; right_a = 8; right_b = 4 }

abbrev still_wheel : Wheel
still_wheel = record {
  last_state = 0;
  poll_state = 0;
  seen_mask = 1;
  change_count = 0;
  total = pos 40;
  reported = pos 38;
}

abbrev encoders : Encoders
encoders = record { left = still_wheel; right = still_wheel }

-- the levels of both pins at once
abbrev level : ℕ → ℕ → ℕ → ℕ
level state port n = state

abbrev trip : List Event
trip =
    irq (level 1) 1
    ∷ fetched 0
    ∷ irq (level 3) 2
    ∷ irq (level 3) 4
    ∷ polled (level 3)
    ∷ irq (level 1) 2
    ∷ []

left_deltas-total_example :
    left_deltas pins encoders (trip ++ (fetched 0 ∷ [])) +ℤ pos 38
    ≡ (run pins encoders trip).left.total
left_deltas-total_example =
    left_deltas-total pins 2 encoders trip
      (record { above = unfold ◌+ℤ◌ in omega arith; below = unfold ◌+ℤ◌ in omega arith })
      (omega arith)

run-end_example : (run pins encoders trip).left.total +ℤ pos 0 ≡ pos 40 +ℤ pos 1
unfolding left_state encoder_state ◌+ℤ◌
run-end_example =
    run-end pins encoders (pos 0) trip (forward ∷ still ∷ forward ∷ still ∷ still ∷ backward ∷ [])
      refl
      (
        inl (refl, refl),
        (refl, (inl (refl, refl), (inr (refl, refl), (refl, (inl (refl, refl), tt))))),
      )
