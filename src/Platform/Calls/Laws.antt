-- ===== src/Platform/Calls/Laws.antt =====
-- What a list of DriverLib calls leaves on a pin and on a compare register, one part at a time.
use nuedc_control_freertos.Prelude.{
  ℕ, Bool, true, false, ◌&&◌, Option, some, [], ◌∷◌, ◌++◌, ◌≡◌, ◌≢◌, refl, ◌⊎◌, arith, ◌==◌,
  if◌then◌else◌,
}
use nuedc_control_freertos.Platform.Calls.{
  Trace, set_pins, clear_pins, toggle_pins, start_counter, set_compare, restart_watchdog,
  set_active_window0, set_halt_stop, last_level, last_compare,
}
use nuedc_control_freertos.Platform.Gpio.{DrvGpioPin, write_raw}
use nuedc_control_freertos.Platform.Pwm.{
  DrvPwmChannel, set_duty_permille, set_compare_raw, duty_compare,
}

pub last_level-append :
    (port pin : ℕ) (acc : Option Bool) (s t : Trace)
    → last_level port pin acc (s ++ t) ≡ last_level port pin (last_level port pin acc s) t
unfolding last_level
last_level-append port pin acc [] t = refl
last_level-append port pin acc (set_pins q p ∷ s) t =
    last_level-append port pin (if port == q && pin == p then some true else acc) s t
last_level-append port pin acc (clear_pins q p ∷ s) t =
    last_level-append port pin (if port == q && pin == p then some false else acc) s t
last_level-append port pin acc (toggle_pins q p ∷ s) t = last_level-append port pin acc s t
last_level-append port pin acc (start_counter u ∷ s) t = last_level-append port pin acc s t
last_level-append port pin acc (set_compare u v c ∷ s) t = last_level-append port pin acc s t
last_level-append port pin acc (restart_watchdog ∷ s) t = last_level-append port pin acc s t
last_level-append port pin acc (set_active_window0 ∷ s) t = last_level-append port pin acc s t
last_level-append port pin acc (set_halt_stop ∷ s) t = last_level-append port pin acc s t

pub last_compare-append :
    (timer channel : ℕ) (acc : Option ℕ) (s t : Trace)
    → last_compare timer channel acc (s ++ t)
      ≡ last_compare timer channel (last_compare timer channel acc s) t
unfolding last_compare
last_compare-append timer channel acc [] t = refl
last_compare-append timer channel acc (set_pins q p ∷ s) t =
    last_compare-append timer channel acc s t
last_compare-append timer channel acc (clear_pins q p ∷ s) t =
    last_compare-append timer channel acc s t
last_compare-append timer channel acc (toggle_pins q p ∷ s) t =
    last_compare-append timer channel acc s t
last_compare-append timer channel acc (start_counter u ∷ s) t =
    last_compare-append timer channel acc s t
last_compare-append timer channel acc (set_compare u v c ∷ s) t =
    last_compare-append timer channel (if timer == u && channel == c then some v else acc) s t
last_compare-append timer channel acc (restart_watchdog ∷ s) t =
    last_compare-append timer channel acc s t
last_compare-append timer channel acc (set_active_window0 ∷ s) t =
    last_compare-append timer channel acc s t
last_compare-append timer channel acc (set_halt_stop ∷ s) t =
    last_compare-append timer channel acc s t

pub last_compare-write_raw :
    (timer channel : ℕ) (acc : Option ℕ) (p : DrvGpioPin) (high : Bool)
    → last_compare timer channel acc (write_raw p high) ≡ acc
unfolding last_compare write_raw
last_compare-write_raw timer channel acc p high = ground arith

pub last_level-set_duty :
    (port pin : ℕ) (acc : Option Bool) (c : DrvPwmChannel) (d : ℕ)
    → last_level port pin acc (set_duty_permille c d) ≡ acc
unfolding last_level set_duty_permille set_compare_raw
last_level-set_duty port pin acc c d = ground arith

-- A write to a pin of a real port is the last word on that pin, and none on another.
pub last_level-write_self :
    (acc : Option Bool) (p : DrvGpioPin) (high : Bool)
    → p.port ≢ 0
    → last_level p.port p.pin acc (write_raw p high) ≡ some high
unfolding last_level write_raw
last_level-write_self acc p high h = ground arith

pub last_level-write_other :
    (port pin : ℕ) (acc : Option Bool) (p : DrvGpioPin) (high : Bool)
    → (port ≢ p.port) ⊎ (pin ≢ p.pin)
    → last_level port pin acc (write_raw p high) ≡ acc
unfolding last_level write_raw
last_level-write_other port pin acc p high h = ground arith

pub last_compare-set_self :
    (acc : Option ℕ) (c : DrvPwmChannel) (d : ℕ)
    → c.timer ≢ 0
    → last_compare c.timer c.channel acc (set_duty_permille c d) ≡ some (duty_compare c d)
unfolding last_compare set_duty_permille set_compare_raw
last_compare-set_self acc c d h = ground arith

pub last_compare-set_other :
    (timer channel : ℕ) (acc : Option ℕ) (c : DrvPwmChannel) (d : ℕ)
    → (timer ≢ c.timer) ⊎ (channel ≢ c.channel)
    → last_compare timer channel acc (set_duty_permille c d) ≡ acc
unfolding last_compare set_duty_permille set_compare_raw
last_compare-set_other timer channel acc c d h = ground arith
