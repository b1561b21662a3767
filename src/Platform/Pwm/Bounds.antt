-- ===== src/Platform/Pwm/Bounds.antt =====
-- The compare values of the PWM driver.
use nuedc_control_freertos.Prelude.{ℕ, ◌≤◌, ◌≡◌, arith}
use nuedc_control_freertos.Platform.Pwm.{clamp_u32}

pub clamp_u32-le : (v m : ℕ) → clamp_u32 v m ≤ m
unfolding clamp_u32
clamp_u32-le v m = ground arith

pub clamp_u32_of_le : (v m : ℕ) → v ≤ m → clamp_u32 v m ≡ v
unfolding clamp_u32
clamp_u32_of_le v m h = ground arith
