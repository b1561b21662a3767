-- ===== src/Platform/Calls.antt =====
-- What a driver does to the hardware is the list of its DriverLib calls, in order. A peripheral
-- is a number, and the null pointer is 0.
pub mod Laws
use nuedc_control_freertos.Prelude.{
  ℕ, Bool, true, false, ◌&&◌, Option, none, some, List, [], ◌∷◌, ◌==◌, if◌then◌else◌,
}

pub data Call : Type 0 where
  set_pins : ℕ → ℕ → Call  -- DL_GPIO_setPins(port, pins)
  clear_pins : ℕ → ℕ → Call  -- DL_GPIO_clearPins(port, pins)
  toggle_pins : ℕ → ℕ → Call  -- DL_GPIO_togglePins(port, pins)
  start_counter : ℕ → Call  -- DL_Timer_startCounter(timer)
  set_compare : ℕ → ℕ → ℕ → Call  -- DL_Timer_setCaptureCompareValue(timer, value, channel)
  restart_watchdog : Call  -- DL_WWDT_restart(WWDT0_INST)
  set_active_window0 : Call  -- DL_WWDT_setActiveWindow(WWDT0_INST, DL_WWDT_WINDOW0)
  set_halt_stop : Call  -- DL_WWDT_setCoreHaltBehavior(WWDT0_INST, DL_WWDT_CORE_HALT_STOP)

abbrev pub Trace : Type 0
Trace = List Call

-- the level that the last set or clear of a pin asked for, if there is one
unfoldable pub last_level : ℕ → ℕ → Option Bool → Trace → Option Bool
last_level port pin acc [] = acc
last_level port pin acc (set_pins q p ∷ t) =
    last_level port pin (if port == q && pin == p then some true else acc) t
last_level port pin acc (clear_pins q p ∷ t) =
    last_level port pin (if port == q && pin == p then some false else acc) t
last_level port pin acc (_ ∷ t) = last_level port pin acc t

-- the last compare value written to a channel of a timer, if there is one
unfoldable pub last_compare : ℕ → ℕ → Option ℕ → Trace → Option ℕ
last_compare timer channel acc [] = acc
last_compare timer channel acc (set_compare u v c ∷ t) =
    last_compare timer channel (if timer == u && channel == c then some v else acc) t
last_compare timer channel acc (_ ∷ t) = last_compare timer channel acc t
