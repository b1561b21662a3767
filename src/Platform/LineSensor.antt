-- ===== src/Platform/LineSensor.antt =====
-- platform/mspm0g3507/drivers/drv_line_sensor.c: the values and the bits of an array of pins.
use nuedc_control_freertos.Prelude.{
  ℕ, zero, suc, ◌+◌, ◌^◌, Bool, List, [], ◌∷◌, take, bit_or, ltb, if◌then◌else◌,
}
use nuedc_control_freertos.Platform.Gpio.{DrvGpioPin, read_active}

abbrev pub max_count : ℕ
max_count = 8

-- `channels` has `max_count` pins
pub record DrvLineSensorArray : Type 0 where
  pub count : ℕ
  pub active_raw : ℕ
  pub inactive_raw : ℕ
  pub channels : List DrvGpioPin

-- the loop that sets the bit of every condition that holds, from the bit `i` on
unfoldable pub bits_from : ℕ → ℕ → List Bool → ℕ
bits_from i bits [] = bits
bits_from i bits (b ∷ bs) = bits_from (i + 1) (if b then bit_or bits (2 ^ i) else bits) bs

abbrev pub map_pins : {A : Type 0} → (DrvGpioPin → A) → List DrvGpioPin → List A
map_pins f [] = []
map_pins f (p ∷ ps) = f p ∷ map_pins f ps

unfoldable pub count : DrvLineSensorArray → ℕ
count array = if ltb max_count array.count then max_count else array.count

unfoldable pub read_bits : (ℕ → ℕ → ℕ) → DrvLineSensorArray → ℕ
unfolding count
read_bits read_pins array =
    bits_from 0 0 (map_pins (read_active read_pins) (take (count array) array.channels))

-- the loop over the values, the first `n` of which are written
unfoldable pub fill : (ℕ → ℕ → ℕ) → DrvLineSensorArray → ℕ → List DrvGpioPin → List ℕ → List ℕ
fill read_pins array zero ps raw = raw
fill read_pins array (suc n) [] raw = raw
fill read_pins array (suc n) (p ∷ ps) [] = []
fill read_pins array (suc n) (p ∷ ps) (v ∷ raw) =
    (if read_active read_pins p then array.active_raw else array.inactive_raw)
    ∷ fill read_pins array n ps raw

unfoldable pub read_raw : (ℕ → ℕ → ℕ) → DrvLineSensorArray → List ℕ → ℕ → List ℕ
unfolding count
read_raw read_pins array raw raw_count =
    let n = if ltb raw_count (count array) then raw_count else count array in
    fill read_pins array n array.channels raw
