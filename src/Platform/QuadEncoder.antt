-- ===== src/Platform/QuadEncoder.antt =====
-- platform/mspm0g3507/drivers/drv_quad_encoder.c. The 32-bit `delta` wraps around
-- here, where C leaves the overflow of the signed sum undefined; the 64-bit `total` is an integer
-- without a bound.
pub mod Tracking
use nuedc_control_freertos.Prelude.{
  ℕ, ◌+◌, ◌*◌, ◌%◌, Bool, true, false, Option, none, some, List, [], ◌∷◌, ℤ, pos, negsuc, ◌+ℤ◌,
  ◌*ℤ◌, is_zero_ℤ, to_i32, get_or, null_guard, if◌then◌else◌,
}
use nuedc_control_freertos.Platform.Gpio.{DrvGpioPin, read_raw}

pub record DrvQuadEncoderConfig : Type 0 where
  pub phase_a : DrvGpioPin
  pub phase_b : DrvGpioPin
  pub direction : ℤ

pub record DrvQuadEncoder : Type 0 where
  pub config : DrvQuadEncoderConfig
  pub last_state : ℕ
  pub delta : ℤ
  pub total : ℤ

abbrev pub bit_of : Bool → ℕ
bit_of true = 1
bit_of false = 0

-- `(a << 1) | b`, of two bits
abbrev pub pair_state : Bool → Bool → ℕ
pair_state a b = bit_of a * 2 + bit_of b

abbrev pub step_table : List ℤ
step_table =
    pos 0
    ∷ pos 1
    ∷ negsuc 0
    ∷ pos 0
    ∷ negsuc 0
    ∷ pos 0
    ∷ pos 0
    ∷ pos 1
    ∷ pos 1
    ∷ pos 0
    ∷ pos 0
    ∷ negsuc 0
    ∷ pos 0
    ∷ negsuc 0
    ∷ pos 1
    ∷ pos 0
    ∷ []

-- `table[((last & 3) << 2) | (cur & 3)]`
unfoldable pub decode_step : ℕ → ℕ → ℤ
decode_step last cur = get_or step_table (last % 4 * 4 + cur % 4) (pos 0)

module _ (read_pins : ℕ → ℕ → ℕ) where
  unfoldable pub read_state : DrvQuadEncoderConfig → ℕ
  read_state c = pair_state (read_raw read_pins c.phase_a) (read_raw read_pins c.phase_b)

  unfoldable pub init : DrvQuadEncoderConfig → DrvQuadEncoder
  init config =
      let c = record config {
        direction = if is_zero_ℤ config.direction then pos 1 else config.direction;
      } in
      record { config = c; last_state = read_state c; delta = pos 0; total = pos 0 }

  unfoldable pub poll : DrvQuadEncoder → DrvQuadEncoder
  poll e =
      let cur = read_state e.config in
      let step = decode_step e.last_state cur *ℤ e.config.direction in
      record e { last_state = cur; delta = to_i32 (e.delta +ℤ step); total = e.total +ℤ step }

  unfoldable pub reset : DrvQuadEncoder → DrvQuadEncoder
  reset e = record e { delta = pos 0; total = pos 0; last_state = read_state e.config }

unfoldable pub get_delta : DrvQuadEncoder → DrvQuadEncoder × ℤ
get_delta e = (record e { delta = pos 0 }, e.delta)

unfoldable pub get_total : DrvQuadEncoder → ℤ
get_total e = e.total
