-- ===== src/Platform/Gpio.antt =====
-- platform/mspm0g3507/drivers/drv_gpio.c. `DL_GPIO_readPins` is the argument `read_pins`. The
-- drivers hand over the addresses of pins that they hold, so `pin == 0` is the case `none` of
-- the functions on a pointer, and those on a pin keep the test of its port.
use nuedc_control_freertos.Prelude.{ℕ, Bool, false, not, [], ◌∷◌, ◌==◌, if◌then◌else◌}
use nuedc_control_freertos.Platform.Calls.{Trace, set_pins, clear_pins, toggle_pins}

pub record DrvGpioPin : Type 0 where
  pub port : ℕ
  pub pin : ℕ
  pub active_low : Bool

unfoldable pub write_raw : DrvGpioPin → Bool → Trace
write_raw p high =
    if p.port == 0
    then []
    else (if high then set_pins p.port p.pin ∷ [] else clear_pins p.port p.pin ∷ [])

unfoldable pub read_raw : (ℕ → ℕ → ℕ) → DrvGpioPin → Bool
read_raw read_pins p = if p.port == 0 then false else not (read_pins p.port p.pin == 0)

unfoldable pub write_active : DrvGpioPin → Bool → Trace
write_active p active = write_raw p (if p.active_low then not active else active)

unfoldable pub read_active : (ℕ → ℕ → ℕ) → DrvGpioPin → Bool
read_active read_pins p = let high = read_raw read_pins p in if p.active_low then not high else high

unfoldable pub toggle : DrvGpioPin → Trace
toggle p = if p.port == 0 then [] else toggle_pins p.port p.pin ∷ []
