-- ===== src/Control/Sma.antt =====
-- The moving average of common/filter.c over 16 places. The signed 32-bit sum wraps around
-- here, where C leaves its overflow undefined.
pub mod Sum
use nuedc_control_freertos.Prelude.{
  ℕ, ◌+◌, ◌-◌, ◌/◌, ◌%◌, List, ℤ, pos, negsuc, ◌+ℤ◌, ◌-ℤ◌, get_or, set, replicate, ltb, u8, to_i32,
  if◌then◌else◌, neg_part, pos_part, neg_ℤ,
}

pub record Sma : Type 0 where
  pub buf : List ℤ
  pub idx : ℕ
  pub len : ℕ
  pub sum : ℤ

unfoldable pub init : ℕ → Sma
init len = record {
  buf = replicate 16 (pos 0);
  idx = 0;
  len = if ltb 16 len then 16 else len;
  sum = pos 0;
}

-- C division of an `int32_t` by a `uint8_t` goes towards zero.
unfoldable pub div_len : ℤ → ℕ → ℤ
div_len (pos n) d = pos (n / d)
div_len (negsuc n) d = neg_ℤ (pos ((n + 1) / d))

unfoldable pub update : Sma → ℤ → Sma × ℤ
unfolding div_len
update s x =
    let sum = to_i32 (to_i32 (s.sum -ℤ get_or s.buf s.idx (pos 0)) +ℤ x) in
    (
      record s { buf = set s.buf s.idx x; idx = u8 ((s.idx + 1) % s.len); sum = sum },
      div_len sum s.len,
    )
