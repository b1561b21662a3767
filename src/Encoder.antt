-- ===== src/Encoder.antt =====
-- modules/encoder/bsp_encoder.c: the counts of the two wheels, kept by the shared GPIO interrupt.
-- The pins are those of SysConfig and `read_pins` is `DL_GPIO_readPins`. A function that takes the
-- interrupt lock is one step. The 64-bit totals are integers without a bound, and the 32-bit
-- change counts wrap.
pub mod Deltas
pub mod Shaft
mod Tests
use nuedc_control_freertos.Prelude.{
  ℕ, ◌+◌, ◌*◌, ◌^◌, Bool, true, false, not, ℤ, pos, ◌+ℤ◌, ◌-ℤ◌, to_i32, u32, ◌==◌, bit_and, bit_or,
  if◌then◌else◌,
}
use nuedc_control_freertos.Platform.QuadEncoder.{bit_of, decode_step}

-- `ENC_LEFT_*` and `ENC_RIGHT_*` of pin_map.h
pub record Pins : Type 0 where
  pub left_port : ℕ
  pub left_a : ℕ
  pub left_b : ℕ
  pub right_port : ℕ
  pub right_a : ℕ
  pub right_b : ℕ

-- the statics of one wheel
pub record Wheel : Type 0 where
  pub last_state : ℕ
  pub poll_state : ℕ
  pub seen_mask : ℕ
  pub change_count : ℕ
  pub total : ℤ
  pub reported : ℤ

pub record Encoders : Type 0 where
  pub left : Wheel
  pub right : Wheel

unfoldable pub encoder_state : (ℕ → ℕ → ℕ) → ℕ → ℕ → ℕ → ℕ
encoder_state read_pins port phase_a phase_b =
    let pins = read_pins port (bit_or phase_a phase_b) in
    bit_of (not (bit_and pins phase_a == 0)) * 2 + bit_of (not (bit_and pins phase_b == 0))

-- a wheel reset at the state that its pins show
unfoldable pub wheel_at : ℕ → Wheel
wheel_at state = record {
  last_state = state;
  poll_state = state;
  seen_mask = 2 ^ state;
  change_count = 0;
  total = pos 0;
  reported = pos 0;
}

unfoldable pub poll_wheel : Wheel → ℕ → Wheel
poll_wheel w state =
    let v = record w { seen_mask = bit_or w.seen_mask (2 ^ state) } in
    if state == w.poll_state
    then v
    else record v { change_count = u32 (w.change_count + 1); poll_state = state }

unfoldable pub report_wheel : Wheel → Wheel × ℤ
report_wheel w = (record w { reported = w.total }, to_i32 (w.total -ℤ w.reported))

-- an edge seen by the interrupt: the step from the last state to the current one
unfoldable pub edge_wheel : Wheel → ℕ → Wheel
edge_wheel w current = record w {
  total = w.total +ℤ decode_step w.last_state current;
  last_state = current;
}

module _ (pins : Pins) where
  unfoldable pub left_state : (ℕ → ℕ → ℕ) → ℕ
  left_state read_pins = encoder_state read_pins pins.left_port pins.left_a pins.left_b

  unfoldable pub right_state : (ℕ → ℕ → ℕ) → ℕ
  right_state read_pins = encoder_state read_pins pins.right_port pins.right_a pins.right_b

  -- The set-up of pins and interrupts is left to DriverLib.
  unfoldable pub init : (ℕ → ℕ → ℕ) → Encoders
  unfolding wheel_at
  init read_pins = record {
    left = wheel_at (left_state read_pins);
    right = wheel_at (right_state read_pins);
  }

  unfoldable pub poll : (ℕ → ℕ → ℕ) → Encoders → Encoders
  unfolding poll_wheel
  poll read_pins e = record {
    left = poll_wheel e.left (left_state read_pins);
    right = poll_wheel e.right (right_state read_pins);
  }

  unfoldable pub reset : (ℕ → ℕ → ℕ) → Encoders → ℕ → Encoders
  unfolding wheel_at
  reset read_pins e ch =
      if ch == 0
      then record e { left = wheel_at (left_state read_pins) }
      else record e { right = wheel_at (right_state read_pins) }

  -- `GROUP1_IRQHandler`, at the pending interrupts of the encoder pins
  unfoldable pub group1_irq : (ℕ → ℕ → ℕ) → ℕ → Encoders → Encoders
  unfolding edge_wheel
  group1_irq read_pins pending e =
      let left_hit = not (bit_and pending (bit_or pins.left_a pins.left_b) == 0) in
      let right_hit = not (bit_and pending (bit_or pins.right_a pins.right_b) == 0) in
      record {
        left = if left_hit then edge_wheel e.left (left_state read_pins) else e.left;
        right = if right_hit then edge_wheel e.right (right_state read_pins) else e.right;
      }

unfoldable pub get_delta : Encoders → ℕ → Encoders × ℤ
unfolding report_wheel
get_delta e ch =
    if ch == 0
    then (let (w, delta) = report_wheel e.left in (record e { left = w }, delta))
    else (let (w, delta) = report_wheel e.right in (record e { right = w }, delta))

unfoldable pub get_total : Encoders → ℕ → ℤ
get_total e ch = if ch == 0 then e.left.total else e.right.total

unfoldable pub get_raw_state : Encoders → ℕ → ℕ
get_raw_state e ch = if ch == 0 then e.left.poll_state else e.right.poll_state

unfoldable pub get_seen_mask : Encoders → ℕ → ℕ
get_seen_mask e ch = if ch == 0 then e.left.seen_mask else e.right.seen_mask

unfoldable pub get_change_count : Encoders → ℕ → ℕ
get_change_count e ch = if ch == 0 then e.left.change_count else e.right.change_count
