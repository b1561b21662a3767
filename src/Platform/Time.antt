-- ===== src/Platform/Time.antt =====
-- platform/mspm0g3507/drivers/drv_time.c, over the tick `g_tick_ms`.
use nuedc_control_freertos.Prelude.{ℕ, Bool, leb, sub_u32}

unfoldable pub millis : ℕ → ℕ
millis g_tick_ms = g_tick_ms

unfoldable pub has_elapsed : ℕ → ℕ → ℕ → Bool
unfolding millis
has_elapsed g_tick_ms start_ms period_ms = leb period_ms (sub_u32 (millis g_tick_ms) start_ms)
