-- ===== src/Prelude/Words.antt =====
-- The fixed-width integers of C. An unsigned word is a number below its modulus, and its
-- operations wrap; a conversion to a narrower signed type keeps the low bits.
use Prim.Native.Nat.{ℕ, ◌+◌, ◌-◌, ◌%◌, compare, Ordering}
use mathlib.Core.Path.{◌≡◌}
use native.Mathlib.Omega.{arith}
use nuedc_control_freertos.Prelude.Int.{ℤ, pos, negsuc, ◌≤ℤ◌}

abbrev pub u8 : ℕ → ℕ
u8 n = n % 256

abbrev pub u16 : ℕ → ℕ
u16 n = n % 65536

abbrev pub u32 : ℕ → ℕ
u32 n = n % 4294967296

-- `(uint32_t)(a - b)`, for words a and b
abbrev pub sub_u32 : ℕ → ℕ → ℕ
sub_u32 a b = (a + 4294967296 - b) % 4294967296

-- the value below the modulus `m` that an integer has modulo `m`
abbrev pub wrap : ℕ → ℤ → ℕ
wrap m (pos n) = n % m
wrap m (negsuc n) = m - 1 - n % m

-- two's complement: the word `w` of modulus `2 * h` as a signed number
abbrev pub signed : ℕ → ℕ → ℤ
signed h w = elim (compare w h) [ Ordering.lt ↦ pos w | _ ↦ negsuc (h + h - 1 - w) ]

unfoldable pub to_i16 : ℤ → ℤ
to_i16 z = signed 32768 (wrap 65536 z)

unfoldable pub to_i32 : ℤ → ℤ
to_i32 z = signed 2147483648 (wrap 4294967296 z)

abbrev pub IsI16 : ℤ → Type 0
IsI16 z = (negsuc 32767 ≤ℤ z) × (z ≤ℤ pos 32767)

abbrev pub IsI32 : ℤ → Type 0
IsI32 z = (negsuc 2147483647 ≤ℤ z) × (z ≤ℤ pos 2147483647)

pub to_i16-IsI16 : (z : ℤ) → IsI16 (to_i16 z)
unfolding to_i16
to_i16-IsI16 z = ground arith

pub to_i16_of_IsI16 : (z : ℤ) → IsI16 z → to_i16 z ≡ z
unfolding to_i16
to_i16_of_IsI16 z h = ground arith

pub to_i32_of_IsI32 : (z : ℤ) → IsI32 z → to_i32 z ≡ z
unfolding to_i32
to_i32_of_IsI32 z h = ground arith
