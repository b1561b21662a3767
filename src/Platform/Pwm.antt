-- ===== src/Platform/Pwm.antt =====
-- platform/mspm0g3507/drivers/drv_pwm.c. The drivers hand over the address of a channel that they
-- hold, so only the test of its timer is left of the guards.
pub mod Bounds
use nuedc_control_freertos.Prelude.{
  ℕ, ◌-◌, ◌*◌, ◌/◌, List, [], ◌∷◌, ◌==◌, ltb, u32, sub_u32, if◌then◌else◌,
}
use nuedc_control_freertos.Platform.Calls.{Trace, start_counter, set_compare}

pub data DrvPwmPolarity : Type 0 where
  active_high active_low : DrvPwmPolarity

pub record DrvPwmChannel : Type 0 where
  pub timer : ℕ
  pub channel : ℕ
  pub period_ticks : ℕ
  pub polarity : DrvPwmPolarity

abbrev pub duty_max : ℕ
duty_max = 1000

unfoldable pub clamp_u32 : ℕ → ℕ → ℕ
clamp_u32 value max_value = if ltb max_value value then max_value else value

unfoldable pub start : DrvPwmChannel → Trace
start p = if p.timer == 0 then [] else start_counter p.timer ∷ []

unfoldable pub set_compare_raw : DrvPwmChannel → ℕ → Trace
set_compare_raw p compare = if p.timer == 0 then [] else set_compare p.timer compare p.channel ∷ []

-- the compare value of a duty, with the product and the difference in 32 bits
unfoldable pub duty_compare : DrvPwmChannel → ℕ → ℕ
unfolding clamp_u32
duty_compare p duty =
    let compare = u32 (p.period_ticks * clamp_u32 duty duty_max) / duty_max in
    elim p.polarity [ active_low ↦ sub_u32 p.period_ticks compare | active_high ↦ compare ]

unfoldable pub set_duty_permille : DrvPwmChannel → ℕ → Trace
unfolding duty_compare set_compare_raw
set_duty_permille p duty = if p.timer == 0 then [] else set_compare_raw p (duty_compare p duty)
