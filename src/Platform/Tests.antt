-- ===== src/Platform/Tests.antt =====
-- Examples of the drivers: an output stage wired as the board's, and a slow shaft.
use nuedc_control_freertos.Prelude.{
  to_i16, neg_ℤ, zero, suc, ℕ, true, false, some, [], ◌∷◌, ◌≡◌, refl, arith, pos, negsuc, ◌+ℤ◌,
}
use nuedc_control_freertos.Platform.Calls.{set_pins, clear_pins, set_compare}
use nuedc_control_freertos.Platform.Gpio.{DrvGpioPin, write_raw, read_raw}
use nuedc_control_freertos.Platform.Pwm
use nuedc_control_freertos.Platform.Pwm.{DrvPwmChannel, active_low}
use nuedc_control_freertos.Platform.HBridge.{DrvHBridgeMotor, set_signed_duty}
use nuedc_control_freertos.Platform.HBridge.Levels.{IsWired, levels, levels-set_signed_duty}
use nuedc_control_freertos.Platform.QuadEncoder.{DrvQuadEncoder, read_state}
use nuedc_control_freertos.Platform.QuadEncoder.Tracking.{forward, still, poll_all, poll_all-end}

abbrev pin : ℕ → DrvGpioPin
pin n = record { port = 1; pin = n; active_low = false }

abbrev stage : DrvHBridgeMotor
stage = record {
  pwm = record { timer = 7; channel = 0; period_ticks = 1000; polarity = active_low };
  in1 = pin 4;
  in2 = pin 8;
  direction = negsuc 0;
}

stage-IsWired : IsWired stage
stage-IsWired = omega arith

runs_at_300 :
    set_signed_duty stage (pos 300) ≡ set_pins 1 4 ∷ clear_pins 1 8 ∷ set_compare 7 700 0 ∷ []
unfolding set_signed_duty write_raw Pwm.set_duty_permille to_i16 neg_ℤ
runs_at_300 = refl

levels-set_signed_duty_example :
    levels stage (set_signed_duty stage (pos 300)) ≡ (some true, some false)
unfolding set_signed_duty
levels-set_signed_duty_example = levels-set_signed_duty stage (pos 300) stage-IsWired

-- the levels of the two phase pins 1 and 2, at a state
abbrev showing : ℕ → ℕ → ℕ → ℕ
showing zero port n = 0
showing (suc zero) port n = elim n [ suc (suc _) ↦ 1 | _ ↦ 0 ]
showing (suc (suc _)) port n = 1

abbrev encoder : DrvQuadEncoder
encoder = record {
  config = record { phase_a = pin 1; phase_b = pin 2; direction = pos 1 };
  last_state = 0;
  delta = pos 5;
  total = pos 10;
}

poll_all-end_example :
    ((poll_all encoder (showing 1 ∷ showing 2 ∷ showing 2 ∷ [])).total +ℤ pos 0 ≡ pos 10 +ℤ pos 2)
    × ((poll_all encoder (showing 1 ∷ showing 2 ∷ showing 2 ∷ [])).delta +ℤ pos 0 ≡ pos 5 +ℤ pos 2)
unfolding read_state read_raw ◌+ℤ◌
poll_all-end_example =
    poll_all-end 5 encoder (pos 0) (showing 1 ∷ showing 2 ∷ showing 2 ∷ [])
      (forward ∷ forward ∷ still ∷ []) (record { above = omega arith; below = omega arith })
      (omega arith) refl refl (refl, (refl, (refl, tt)))
