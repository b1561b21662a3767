-- ===== src/LineSensor/Tests.antt =====
-- Examples of the line sensor and its tracker, with integers for the floating-point numbers.
use nuedc_control_freertos.Prelude.{
  ℕ, ◌*◌, ◌<◌, ℤ, pos, List, [], ◌∷◌, replicate, false, refl, some,
}
use nuedc_control_freertos.Platform.Gpio.{DrvGpioPin}
use nuedc_control_freertos.Platform.LineSensor as Drv
use nuedc_control_freertos.Control.Tests.{integers, regulator}
use nuedc_control_freertos.Control.LineTracker.{LineTracker}
use nuedc_control_freertos.LineSensor.{
  DevLineSensor, board_init, evaluate, get_contrast_threshold, get_strength_threshold, get_count,
  greatest, least, clamp_u16, sums,
}
use nuedc_control_freertos.LineSensor.Bias.{Within, evaluate-Within}

abbrev pins : List DrvGpioPin
pins = replicate 8 (record { port = 1; pin = 2; active_low = false })

abbrev sensor : DevLineSensor ℤ
sensor = board_init integers pins

-- the line under the fourth and the fifth pin
abbrev values : List ℕ
values = 0 ∷ 0 ∷ 0 ∷ 4095 ∷ 4095 ∷ 0 ∷ 0 ∷ 0 ∷ []

evaluate-Within_example :
    (0 < (evaluate integers sensor 8 values).1)
    × Within (7 * (evaluate integers sensor 8 values).1) (evaluate integers sensor 8 values).2
unfolding evaluate get_contrast_threshold board_init greatest get_count Drv.count least
    get_strength_threshold clamp_u16 sums
evaluate-Within_example = evaluate-Within integers sensor values refl

-- no pin sees the line, which was on the right before
abbrev pub dark : ℕ → ℕ → ℕ
dark port pin = 0

abbrev pub tracker : LineTracker ℤ
tracker = record {
  pid = some regulator;
  sensor = record sensor { frame = record sensor.frame { last_bias = pos 5 } };
}
