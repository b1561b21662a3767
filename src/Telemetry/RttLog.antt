-- ===== src/Telemetry/RttLog.antt =====
-- modules/telemetry/rtt_log.c: the ring of the debug log. `wr_off` and `rd_off` are 32-bit words;
-- the debugger reads the buffer and moves `rd_off`.
pub mod Queue
use nuedc_control_freertos.Prelude.{
  ℕ, zero, suc, ◌+◌, ◌-◌, Bool, true, false, Option, none, some, List, [], ◌∷◌, ◌==◌, leb, ltb,
  length, set, replicate, u32, if◌then◌else◌,
}

pub record RttBufferUp : Type 0 where
  pub buffer : List ℕ
  pub size : ℕ
  pub wr_off : ℕ
  pub rd_off : ℕ

abbrev pub up_buffer_size : ℕ
up_buffer_size = 4096

-- the up buffer of the control block at reset, with as many zeros
unfoldable pub static_up : RttBufferUp
static_up = record {
  buffer = replicate up_buffer_size 0;
  size = up_buffer_size;
  wr_off = 0;
  rd_off = 0;
}

-- the number of bytes before the terminator
unfoldable pub cstr_len : List ℕ → ℕ
cstr_len [] = 0
cstr_len (c ∷ s) = if c == 0 then 0 else suc (cstr_len s)

-- `rd - wr - 1` and `size - wr + rd - 1`, on 32-bit words
unfoldable pub space_available : RttBufferUp → ℕ
space_available b =
    if ltb b.wr_off b.rd_off
    then u32 (b.rd_off + (4294967296 - b.wr_off) + 4294967295)
    else u32 (b.size + (4294967296 - b.wr_off) + b.rd_off + 4294967295)

-- the copying loop, with the buffer and the write offset
unfoldable pub copy : ℕ → List ℕ → ℕ → List ℕ → List ℕ × ℕ
copy size buffer wr [] = (buffer, wr)
copy size buffer wr (c ∷ cs) =
    copy size (set buffer wr c) (if leb size (wr + 1) then 0 else wr + 1) cs

-- `data` is the bytes from the pointer on, `len` of them; the null pointer is `none`.
unfoldable pub write : RttBufferUp → Option (List ℕ) → RttBufferUp
write b none = b
write b (some bytes) =
    let len = length bytes in
    if len == 0
    then b
    else (if leb b.size len
        then b
        else (if ltb (space_available b) len
            then b
            else (let (buffer, wr) = copy b.size b.buffer b.wr_off bytes in
                record b { buffer = buffer; wr_off = wr })))
