-- ===== src/Vision.antt =====
-- modules/vision/dev_vision.c: the parser of the frames that the camera sends. A byte is a number
-- below 256, and `payload` has 32 places. The event is what the call leaves in `*event`.
pub mod Frame
pub mod Accept
pub mod Read
pub mod Sound
pub mod Board
mod Tests
use nuedc_control_freertos.Prelude.{
  ℕ, ◌+◌, ◌*◌, Bool, true, false, ◌&&◌, ◌||◌, Option, none, some, List, ℤ, pos, ◌==◌, ltb, leb,
  bit_or, bit_xor, to_i16, u16, get_or, set, replicate, if◌then◌else◌,
}

abbrev pub max_payload : ℕ
max_payload = 32

pub record DevVisionTarget : Type 0 where
  pub center_x : ℤ
  pub center_y : ℤ
  pub class_id : ℕ
  pub area : ℕ
  pub ts_ms : ℕ

pub data DevVisionEventType : Type 0 where
  no_event target_event command_event : DevVisionEventType

pub record DevVisionEvent : Type 0 where
  pub type : DevVisionEventType
  pub target : DevVisionTarget
  pub command : ℕ
  pub frame_type : ℕ

pub data DevVisionParseState : Type 0 where
  sync1 sync2 len_byte type_byte data_byte crc_byte cr_byte lf_byte : DevVisionParseState

pub record DevVision : Type 0 where
  pub state : DevVisionParseState
  pub len : ℕ
  pub frame_type : ℕ
  pub index : ℕ
  pub crc_calc : ℕ
  pub payload : List ℕ
  pub target : DevVisionTarget
  pub fresh_target : Bool

abbrev pub zero_target : DevVisionTarget
zero_target = record { center_x = pos 0; center_y = pos 0; class_id = 0; area = 0; ts_ms = 0 }

abbrev pub cleared_event : DevVisionEvent
cleared_event = record { type = no_event; target = zero_target; command = 0; frame_type = 0 }

-- `lo | (hi << 8)`
unfoldable pub join_bytes : ℕ → ℕ → ℕ
join_bytes lo hi = bit_or lo (hi * 256)

unfoldable pub init : DevVision
init = record {
  state = sync1;
  len = 0;
  frame_type = 0;
  index = 0;
  crc_calc = 0;
  payload = replicate max_payload 0;
  target = zero_target;
  fresh_target = false;
}

unfoldable pub reset_parser : DevVision → DevVision
reset_parser v = record v { state = sync1; len = 0; frame_type = 0; index = 0; crc_calc = 0 }

abbrev pub byte_at : DevVision → ℕ → ℕ
byte_at v i = get_or v.payload i 0

-- the target that a payload describes
unfoldable pub parse_target : DevVision → ℕ → DevVisionTarget
parse_target v now_ms = record {
  center_x = to_i16 (pos (join_bytes (byte_at v 0) (byte_at v 1)));
  center_y = to_i16 (pos (join_bytes (byte_at v 2) (byte_at v 3)));
  class_id = byte_at v 4;
  area = u16 (join_bytes (byte_at v 5) (byte_at v 6));
  ts_ms = now_ms;
}

unfoldable pub dispatch_frame : DevVision → ℕ → DevVision × Bool × DevVisionEvent
unfolding parse_target
dispatch_frame v now_ms =
    if v.frame_type == 0x01 && leb 7 v.len
    then (let t = parse_target v now_ms in
        (
          record v { target = t; fresh_target = true },
          true,
          record { type = target_event; target = t; command = 0; frame_type = v.frame_type },
        ))
    else (if v.frame_type == 0x02 && leb 1 v.len
        then (
          v,
          true,
          record {
            type = command_event;
            target = zero_target;
            command = byte_at v 0;
            frame_type = v.frame_type;
          },
        )
        else (v, false, cleared_event))

-- a case of the `switch` that reports nothing
abbrev pub silent : DevVision → DevVision × Bool × DevVisionEvent
silent v = (v, false, cleared_event)

-- `DEV_VISION_PS_DATA`: the byte is stored, then the index is compared again
unfoldable pub on_data : DevVision → ℕ → DevVision
on_data v byte =
    let w =
      if ltb v.index v.len
      then record v {
        payload = set v.payload v.index byte;
        index = v.index + 1;
        crc_calc = bit_xor v.crc_calc byte;
      }
      else v in
    if leb w.len w.index then record w { state = crc_byte } else w

-- the `switch` on the state
unfoldable pub on_state :
    DevVisionParseState → DevVision → ℕ → ℕ → DevVision × Bool × DevVisionEvent
unfolding on_data dispatch_frame
on_state sync1 v byte now_ms = silent (if byte == 0xAA then record v { state = sync2 } else v)
on_state sync2 v byte now_ms =
    silent (record v { state = if byte == 0x55 then len_byte else sync1 })
on_state len_byte v byte now_ms = silent (
    if byte == 0 || ltb max_payload byte
    then record v { state = sync1 }
    else record v { len = byte; crc_calc = byte; state = type_byte })
on_state type_byte v byte now_ms = silent (record v {
  frame_type = byte;
  crc_calc = bit_xor v.crc_calc byte;
  index = 0;
  state = data_byte;
})
on_state data_byte v byte now_ms = silent (on_data v byte)
on_state crc_byte v byte now_ms =
    silent (record v { state = if byte == v.crc_calc then cr_byte else sync1 })
on_state cr_byte v byte now_ms =
    silent (record v { state = if byte == 0x0D then lf_byte else sync1 })
on_state lf_byte v byte now_ms =
    let w = record v { state = sync1 } in if byte == 0x0A then dispatch_frame w now_ms else silent w

unfoldable pub on_rx_byte : DevVision → ℕ → ℕ → DevVision × Bool × DevVisionEvent
unfolding on_state
on_rx_byte v byte now_ms = on_state v.state v byte now_ms

-- At a null parser the event is cleared and the result is 0.
unfoldable pub on_rx_byte_at : Option DevVision → ℕ → ℕ → Option DevVision × Bool × DevVisionEvent
on_rx_byte_at none byte now_ms = (none, false, cleared_event)
on_rx_byte_at (some v) byte now_ms =
    let (w, done, event) = on_rx_byte v byte now_ms in (some w, done, event)

unfoldable pub has_fresh_target : DevVision → DevVision × Bool
has_fresh_target v =
    if v.fresh_target then (record v { fresh_target = false }, true) else (v, false)

unfoldable pub get_target : Option DevVision → DevVisionTarget
get_target none = zero_target
get_target (some v) = v.target
