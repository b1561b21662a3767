-- ===== src/Vision/Accept.antt =====
-- The parser takes every well-formed frame.
use native.Mathlib.Nat.{add-zero, zero-add as zero_add}
use nuedc_control_freertos.Prelude.{
  pos, to_i16, u16, ap, get_or-set_ne, get_or-set_self, ℕ, zero, suc, ◌+◌, ◌≤◌, ◌<◌, Bool, true,
  false, List, [], ◌∷◌, ◌++◌, ◌≡◌, refl, ◌∙◌, arith, length, set, get_or, bit_xor, length-set,
}
use nuedc_control_freertos.Vision.{
  DevVisionTarget, target_event, join_bytes, DevVision, DevVisionEvent, sync1, crc_byte, data_byte,
  cleared_event, on_rx_byte, on_data, dispatch_frame, silent,
}
use nuedc_control_freertos.Vision.Frame.{xor_bytes, checksum, trailer, frame}

-- the parser over bytes that come at one time, with what the last of them reports
unfoldable pub feed :
    DevVision × Bool × DevVisionEvent → ℕ → List ℕ → DevVision × Bool × DevVisionEvent
feed out now_ms [] = out
feed out now_ms (b ∷ bs) = feed (on_rx_byte out.0 b now_ms) now_ms bs

-- the payload buffer after bytes written from an index on
abbrev pub write_from : List ℕ → ℕ → List ℕ → List ℕ
write_from buf i [] = buf
write_from buf i (b ∷ bs) = write_from (set buf i b) (i + 1) bs

rx-data :
    (v : DevVision) (b now_ms : ℕ)
    → v.state ≡ data_byte
    → on_rx_byte v b now_ms ≡ silent (on_data v b)
unfolding on_rx_byte
rx-data v b now_ms e = ground arith

-- what the data state does with a byte that is not the last
abbrev stored : DevVision → ℕ → DevVision
stored v b = record v {
  payload = set v.payload v.index b;
  index = v.index + 1;
  crc_calc = bit_xor v.crc_calc b;
}

on_data-more : (v : DevVision) (b : ℕ) → v.index + 1 < v.len → on_data v b ≡ stored v b
unfolding on_data
on_data-more v b h = ground arith

on_data-last :
    (v : DevVision) (b : ℕ)
    → v.index + 1 ≡ v.len
    → on_data v b ≡ record (stored v b) { state = crc_byte; index = v.len }
unfolding on_data
on_data-last v b h = ground arith

-- the parser when a payload is complete
abbrev filled : DevVision → List ℕ → DevVision
filled v bs = record v {
  state = crc_byte;
  index = v.len;
  crc_calc = xor_bytes v.crc_calc bs;
  payload = write_from v.payload v.index bs;
}

-- In the data state the payload bytes go into the buffer one by one.
feed-payload :
    (v : DevVision) (done : Bool) (event : DevVisionEvent) (now_ms b : ℕ) (bs rest : List ℕ)
    → v.state ≡ data_byte
    → v.index + suc (length bs) ≡ v.len
    → feed (v, done, event) now_ms ((b ∷ bs) ++ rest)
      ≡ feed (silent (filled v (b ∷ bs))) now_ms rest
unfolding feed
feed-payload v done event now_ms b [] rest s n =
    ap (λ out. feed out now_ms rest)
      (rx-data v b now_ms s ∙ ap silent (on_data-last v b (omega arith)))
feed-payload v done event now_ms b (c ∷ bs) rest s n =
    ap (λ out. feed out now_ms ((c ∷ bs) ++ rest))
      (rx-data v b now_ms s ∙ ap silent (on_data-more v b (omega arith)))
    ∙ feed-payload (stored v b) false cleared_event now_ms c bs rest s (omega arith)

-- A run of writes leaves the places below it alone, and fills its own.
get_or-write_below :
    (bs buf : List ℕ) (k i : ℕ) → i < k → get_or (write_from buf k bs) i 0 ≡ get_or buf i 0
get_or-write_below [] buf k i h = refl
get_or-write_below (b ∷ bs) buf k i h =
    get_or-write_below bs (set buf k b) (k + 1) i (omega arith)
    ∙ get_or-set_ne buf k i b 0 (omega arith)

pub get_or-write_from :
    (bs buf : List ℕ) (i j : ℕ)
    → i + length bs ≤ length buf
    → j < length bs
    → get_or (write_from buf i bs) (i + j) 0 ≡ get_or bs j 0
get_or-write_from [] buf i j h lt = absurd (omega arith)
get_or-write_from (b ∷ bs) buf i zero h lt = rw add-zero (
    get_or-write_below bs (set buf i b) (i + 1) i (omega arith)
    ∙ get_or-set_self buf i b 0 (omega arith))
get_or-write_from (b ∷ bs) buf i (suc j) h lt =
    rw shift (
      get_or-write_from bs (set buf i b) (i + 1) j (omega (arith, length-set buf i b))
        (omega arith))
  where
    shift : i + suc j ≡ i + 1 + j
    shift = omega arith

-- the parser when a header is complete
abbrev headed : DevVision → ℕ → ℕ → DevVision
headed v n type = record v {
  state = data_byte;
  len = n;
  frame_type = type;
  index = 0;
  crc_calc = bit_xor n type;
}

rx-header :
    (v : DevVision) (now_ms n type : ℕ)
    → v.state ≡ sync1
    → 0 < n
    → n ≤ 32
    → on_rx_byte
        (on_rx_byte (on_rx_byte (on_rx_byte v 0xAA now_ms).0 0x55 now_ms).0 n now_ms).0
        type
        now_ms
      ≡ silent (headed v n type)
unfolding on_rx_byte
rx-header v now_ms n type s pos_n h = ground arith

rx-trailer :
    (v : DevVision) (now_ms : ℕ)
    → v.state ≡ crc_byte
    → feed (silent v) now_ms (trailer v.crc_calc)
      ≡ dispatch_frame (record v { state = sync1 }) now_ms
unfolding feed on_rx_byte
rx-trailer v now_ms s = ground arith

-- the parser when a frame has ended, before it is dispatched
abbrev parsed : DevVision → ℕ → List ℕ → DevVision
parsed v type bs = record v {
  state = sync1;
  len = length bs;
  frame_type = type;
  index = length bs;
  crc_calc = checksum type bs;
  payload = write_from v.payload 0 bs;
}

-- From the state that waits for a frame, and whatever else it holds, the parser takes a frame with
-- 1 to 32 bytes of payload to the end, and dispatches it with just that type and payload.
pub feed-frame :
    (v : DevVision) (done : Bool) (event : DevVisionEvent) (now_ms type : ℕ) (b : ℕ) (bs : List ℕ)
    → v.state ≡ sync1
    → length (b ∷ bs) ≤ 32
    → feed (v, done, event) now_ms (frame type (b ∷ bs))
      ≡ dispatch_frame (parsed v type (b ∷ bs)) now_ms
unfolding feed
feed-frame v done event now_ms type b bs s h =
    ap (λ out. feed out now_ms ((b ∷ bs) ++ trailer (checksum type (b ∷ bs))))
      (rx-header v now_ms (length (b ∷ bs)) type s (omega arith) h)
    ∙ feed-payload (headed v (length (b ∷ bs)) type) false cleared_event now_ms b bs
        (trailer (checksum type (b ∷ bs))) refl (omega arith)
    ∙ rx-trailer (filled (headed v (length (b ∷ bs)) type) (b ∷ bs)) now_ms refl

-- the target that a payload of the format describes
abbrev pub target_of : List ℕ → ℕ → DevVisionTarget
target_of bs now_ms = record {
  center_x = to_i16 (pos (join_bytes (get_or bs 0 0) (get_or bs 1 0)));
  center_y = to_i16 (pos (join_bytes (get_or bs 2 0) (get_or bs 3 0)));
  class_id = get_or bs 4 0;
  area = u16 (join_bytes (get_or bs 5 0) (get_or bs 6 0));
  ts_ms = now_ms;
}

-- What a call reports of a target, and the parser that it leaves: waiting for the next frame, with
-- the target kept and marked fresh.
pub record ReportsTarget (t : DevVisionTarget) (out : DevVision × Bool × DevVisionEvent)
    : Type 0 where
  pub done : out.1 ≡ true
  pub type : out.2.type ≡ target_event
  pub told : out.2.target ≡ t
  pub kept : out.0.target ≡ t
  pub fresh : out.0.fresh_target ≡ true
  pub ready : out.0.state ≡ sync1

dispatch-target :
    (v : DevVision) (now_ms : ℕ) (bs : List ℕ)
    → 7 ≤ length bs
    → length bs ≤ length v.payload
    → ReportsTarget (target_of bs now_ms) (dispatch_frame (parsed v 0x01 bs) now_ms)
unfolding dispatch_frame
dispatch-target v now_ms bs h fits = ground (
  arith,
  place 0 (omega arith),
  place 1 (omega arith),
  place 2 (omega arith),
  place 3 (omega arith),
  place 4 (omega arith),
  place 5 (omega arith),
  place 6 (omega arith),
)
  where
    place : (j : ℕ) → j < length bs → get_or (write_from v.payload 0 bs) j 0 ≡ get_or bs j 0
    place j lt = rw zero_add at (get_or-write_from bs v.payload 0 j (omega arith) lt)

-- From the state that waits for a frame, a frame of type 1 with 7 to 32 bytes of payload is taken
-- as the target that those bytes describe, with the time of its last byte.
pub feed-target :
    (v : DevVision) (now_ms b : ℕ) (bs : List ℕ)
    → v.state ≡ sync1
    → length v.payload ≡ 32
    → 7 ≤ length (b ∷ bs)
    → length (b ∷ bs) ≤ 32
    → ReportsTarget (target_of (b ∷ bs) now_ms) (feed (silent v) now_ms (frame 0x01 (b ∷ bs)))
feed-target v now_ms b bs s p lo hi =
    rw (feed-frame v false cleared_event now_ms 0x01 b bs s hi)
      (dispatch-target v now_ms (b ∷ bs) lo (omega arith))
