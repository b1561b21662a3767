-- ===== src/LineSensor.antt =====
-- modules/line_sensor: the line sensor (dev_line_sensor.c) and the board's one (bsp_adc.c). The pins
-- are read once for the values and once for the bits, so that an update takes two readings of them.
-- `weighted` has 32 bits in the source, and is an integer here.
pub mod Bias
pub mod Tests
use nuedc_control_freertos.Prelude.{
  ℕ, zero, suc, ◌+◌, ◌-◌, ◌*◌, ◌/◌, ◌%◌, ◌^◌, Bool, true, false, ◌&&◌, ◌||◌, not, ℤ, pos, ◌+ℤ◌,
  ◌-ℤ◌, ◌*ℤ◌, to_i16, List, [], ◌∷◌, take, replicate, get_or, bit_or, ltb, leb, ◌==◌, u16, u32,
  if◌then◌else◌, Option, none, some, length,
}
use nuedc_control_freertos.Platform.Gpio.{DrvGpioPin}
use nuedc_control_freertos.Platform.LineSensor as Drv
use nuedc_control_freertos.Platform.LineSensor.{DrvLineSensorArray, max_count, bits_from}
use nuedc_control_freertos.Control.Floats.{Floats}

abbrev pub default_contrast_th : ℕ
default_contrast_th = 120

abbrev pub default_strength_th : ℕ
default_strength_th = 260

-- `DevLineSensorReadRawFn` with its context: the values that the buffer has after the call
abbrev pub ReadRaw : Type 0
ReadRaw = ℕ → List ℕ → List ℕ

pub record DevLineSensorConfig (F : Type 0) : Type 0 where
  pub array : Option DrvLineSensorArray
  pub read_raw : Option ReadRaw
  pub count : ℕ
  pub contrast_threshold : ℕ
  pub strength_threshold : ℕ
  pub bias_alpha : F

pub record DevLineSensorFrame (F : Type 0) : Type 0 where
  pub raw : List ℕ
  pub count : ℕ
  pub bits : ℕ
  pub min_value : ℕ
  pub max_value : ℕ
  pub contrast : ℕ
  pub strength : ℕ
  pub bias : F
  pub last_bias : F
  pub on_line : Bool

-- `has_array` says that the configuration's array is there
pub record DevLineSensor (F : Type 0) : Type 0 where
  pub config : DevLineSensorConfig F
  pub frame : DevLineSensorFrame F
  pub bias_primed : Bool

unfoldable pub clamp_count : ℕ → ℕ
clamp_count count = if ltb max_count count then max_count else count

unfoldable pub sensor_weight : ℕ → ℕ → ℤ
sensor_weight index count = to_i16 (pos (2 * index) -ℤ (pos count -ℤ pos 1))

unfoldable pub clamp_u16 : ℕ → ℕ
clamp_u16 value = if ltb 65535 value then 65535 else value

-- zeros from the value `count` on
unfoldable pub clear_unused_raw : ℕ → List ℕ → List ℕ
clear_unused_raw n [] = []
clear_unused_raw zero (v ∷ raw) = 0 ∷ clear_unused_raw zero raw
clear_unused_raw (suc n) (v ∷ raw) = v ∷ clear_unused_raw n raw

unfoldable pub least : ℕ → List ℕ → ℕ
least m [] = m
least m (v ∷ vs) = least (if ltb v m then v else m) vs

unfoldable pub greatest : ℕ → List ℕ → ℕ
greatest m [] = m
greatest m (v ∷ vs) = greatest (if ltb m v then v else m) vs

-- `raw[i] - min_v`, a word of 16 bits
abbrev pub above : ℕ → ℕ → ℕ
above min v = (v + 65536 - min) % 65536

-- the loop of the strength and of the weighted sum, from the value `i` on
unfoldable pub sums : ℕ → ℕ → ℕ → List ℕ → ℕ → ℤ → ℕ × ℤ
sums count min i [] strength weighted = (strength, weighted)
sums count min i (v ∷ vs) strength weighted =
    sums count min (i + 1) vs (u32 (strength + above min v))
      (weighted +ℤ sensor_weight i count *ℤ pos (above min v))

abbrev pub at_least : ℕ → List ℕ → List Bool
at_least threshold [] = []
at_least threshold (v ∷ vs) = leb threshold v ∷ at_least threshold vs

module _ (fl : Floats) where
  open fl use {Float, lit, add, sub, mul, div, lt, le, of_int}

  abbrev zero_f : Float
  zero_f = lit 0 0

  unfoldable pub get_count : DevLineSensor Float → ℕ
  get_count sensor = elim sensor.config.array [
    | some array ↦ Drv.count array
    | none ↦ clamp_count sensor.config.count
  ]

  unfoldable pub get_alpha : DevLineSensor Float → Float
  get_alpha sensor =
      let alpha = sensor.config.bias_alpha in
      if le alpha zero_f || lt (lit 1 0) alpha then lit 35 2 else alpha

  unfoldable pub get_contrast_threshold : DevLineSensor Float → ℕ
  get_contrast_threshold sensor =
      if not (sensor.config.contrast_threshold == 0)
      then sensor.config.contrast_threshold
      else default_contrast_th

  unfoldable pub get_strength_threshold : DevLineSensor Float → ℕ
  get_strength_threshold sensor =
      if not (sensor.config.strength_threshold == 0)
      then sensor.config.strength_threshold
      else default_strength_th

  unfoldable pub bits_from_raw : DevLineSensorFrame Float → ℕ
  bits_from_raw frame =
      let threshold = u16 (frame.min_value + frame.contrast / 2) in
      if (frame.count == 0) || (frame.contrast == 0)
      then 0
      else bits_from 0 0 (at_least threshold (take frame.count frame.raw))

  -- `memset` to 0
  abbrev pub empty_frame : DevLineSensorFrame Float
  empty_frame = record {
    raw = replicate max_count 0;
    count = 0;
    bits = 0;
    min_value = 0;
    max_value = 0;
    contrast = 0;
    strength = 0;
    bias = zero_f;
    last_bias = zero_f;
    on_line = false;
  }

  unfoldable pub reset : DevLineSensor Float → DevLineSensor Float
  reset sensor = record sensor {
    frame = record empty_frame { count = get_count sensor };
    bias_primed = false;
  }

  -- `memset` to 0
  abbrev pub no_config : DevLineSensorConfig Float
  no_config = record {
    array = none;
    read_raw = none;
    count = 0;
    contrast_threshold = 0;
    strength_threshold = 0;
    bias_alpha = zero_f;
  }

  -- a null pointer is `none`
  unfoldable pub init : Option (DevLineSensorConfig Float) → DevLineSensor Float
  unfolding reset
  init config = reset (record {
    config = elim config [ none ↦ no_config | some c ↦ c ];
    frame = empty_frame;
    bias_primed = false;
  })

  -- the values, where they are read
  unfoldable pub acquire : (ℕ → ℕ → ℕ) → DevLineSensor Float → ℕ → List ℕ
  acquire read_pins sensor count =
      let raw : List ℕ = elim sensor.config.read_raw [
        | some f ↦ f count sensor.frame.raw
        | none ↦ elim sensor.config.array [
          | some array ↦ Drv.read_raw read_pins array sensor.frame.raw count
          | none ↦ sensor.frame.raw
        ]
      ] in
      clear_unused_raw count raw

  -- the frame up to its bits, with the sum of the values and the weighted sum
  unfoldable pub evaluate : DevLineSensor Float → ℕ → List ℕ → DevLineSensorFrame Float × ℕ × ℤ
  evaluate sensor count raw =
      let values = take count raw in
      let min = least (get_or raw 0 0) values in
      let max = greatest (get_or raw 0 0) values in
      let (strength, weighted) = sums count min 0 values 0 (pos 0) in
      let contrast = above min max in
      (
        record sensor.frame {
          raw = raw;
          count = count;
          bits = 0;
          min_value = min;
          max_value = max;
          contrast = contrast;
          strength = clamp_u16 strength;
          on_line =
              leb (get_contrast_threshold sensor) contrast
              && leb (get_strength_threshold sensor) (clamp_u16 strength);
        },
        strength,
        weighted,
      )

  -- the bias from the sums, smoothed once there is one
  unfoldable pub steer :
      DevLineSensor Float → DevLineSensorFrame Float → ℕ → ℤ → DevLineSensor Float
  steer sensor frame strength weighted =
      let span = of_int (pos (frame.count - 1)) in
      let raw_bias = div (of_int weighted) (mul (of_int (pos strength)) span) in
      let alpha = get_alpha sensor in
      let bias =
        if sensor.bias_primed
        then add (mul alpha raw_bias) (mul (sub (lit 1 0) alpha) frame.bias)
        else raw_bias in
      if frame.on_line && (not (strength == 0) && ltb 1 frame.count)
      then record sensor {
        frame = record frame { bias = bias; last_bias = bias };
        bias_primed = true;
      }
      else record sensor { frame = record frame { bias = frame.last_bias } }

  -- `read_values` are the pins when the values are read, `read_marks` when the bits are
  unfoldable pub update : (ℕ → ℕ → ℕ) → (ℕ → ℕ → ℕ) → DevLineSensor Float → DevLineSensor Float
  update read_values read_marks sensor =
      let count = get_count sensor in
      let raw = acquire read_values sensor count in
      let (frame, strength, weighted) = evaluate sensor count raw in
      let bits : ℕ = elim sensor.config.array [
        | some array ↦ Drv.read_bits read_marks array
        | none ↦ bits_from_raw frame
      ] in
      if count == 0
      then record sensor {
        frame = record sensor.frame {
          raw = clear_unused_raw 0 sensor.frame.raw;
          count = 0;
          bits = 0;
          min_value = 0;
          max_value = 0;
          contrast = 0;
          strength = 0;
          on_line = false;
        };
      }
      else steer sensor (record frame { bits = bits }) strength weighted

  -- `BSP_Adc_Init`, on the board's pins
  unfoldable pub board_init : List DrvGpioPin → DevLineSensor Float
  unfolding init
  board_init channels = init (
      some (record {
        array = some (record {
          count = length channels;
          active_raw = 4095;
          inactive_raw = 0;
          channels = channels;
        });
        read_raw = none;
        count = length channels;
        contrast_threshold = default_contrast_th;
        strength_threshold = default_strength_th;
        bias_alpha = lit 35 2;
      }))

  -- `BSP_Adc_GetCCD`: the values of a new frame
  unfoldable pub get_ccd :
      (ℕ → ℕ → ℕ) → (ℕ → ℕ → ℕ) → DevLineSensor Float → ℕ → DevLineSensor Float × List ℕ
  unfolding update
  get_ccd read_values read_marks sensor n =
      let sensor' = update read_values read_marks sensor in (sensor', take n sensor'.frame.raw)
