-- ===== src/Vision/Frame.antt =====
-- The frame format, as a sender writes it: AA 55, the length, the type, the payload, the checksum,
-- then CR LF. The checksum is the exclusive or of the length, the type and the payload.
use nuedc_control_freertos.Prelude.{ℕ, List, [], ◌∷◌, ◌++◌, length, bit_xor}

abbrev pub xor_bytes : ℕ → List ℕ → ℕ
xor_bytes acc [] = acc
xor_bytes acc (b ∷ bs) = xor_bytes (bit_xor acc b) bs

abbrev pub checksum : ℕ → List ℕ → ℕ
checksum type payload = xor_bytes (bit_xor (length payload) type) payload

abbrev pub trailer : ℕ → List ℕ
trailer crc = crc ∷ 0x0D ∷ 0x0A ∷ []

abbrev pub frame : ℕ → List ℕ → List ℕ
frame type payload =
    0xAA ∷ 0x55 ∷ length payload ∷ type ∷ (payload ++ trailer (checksum type payload))
