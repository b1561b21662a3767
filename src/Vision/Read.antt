-- ===== src/Vision/Read.antt =====
-- What the parser of dev_vision.c has read at each of its states, and that each byte keeps it so.
use nuedc_control_freertos.Prelude.{
  ℕ, zero, suc, ◌+◌, ◌≤◌, ◌<◌, Bool, true, false, ◌||◌, List, [], ◌∷◌, ◌++◌, ◌≡◌, refl, sym, ap,
  ◌∙◌, ◌⊎◌, arith, length, set, get_or, bit_xor, length-set, length-append, get_or-set_ne,
  get_or-set_self, if◌then◌else◌, ltb, ◌==◌, inl, inr,
}
use native.Mathlib.Decide.{dec_lt}
use mathlib.Core.Path.{subst}
use mathlib.Core.List.{append_assoc, append-nil}
use nuedc_control_freertos.Vision.{
  DevVision, DevVisionParseState, sync1, sync2, len_byte, type_byte, data_byte, crc_byte, cr_byte,
  lf_byte, on_state, on_data,
}
use nuedc_control_freertos.Vision.Frame.{xor_bytes}

-- A list of bytes ends in another.
abbrev pub EndsIn : List ℕ → List ℕ → Type 0
EndsIn h s = (before : List ℕ) × (h ≡ before ++ s)

-- the bytes of a frame up to its payload, which may be incomplete
abbrev pub opening : DevVision → List ℕ → List ℕ
opening v bs = 0xAA ∷ 0x55 ∷ v.len ∷ v.frame_type ∷ bs

-- The payload bytes that the parser holds, with the running checksum.
pub record Holds (v : DevVision) (bs : List ℕ) : Type 0 where
  pub counted : length bs ≡ v.index
  pub fits : v.len ≤ length v.payload
  pub placed : (j : ℕ) → j < length bs → get_or v.payload j 0 ≡ get_or bs j 0
  pub summed : v.crc_calc ≡ xor_bytes (bit_xor v.len v.frame_type) bs

-- What the parser in a state has read last.
abbrev pub Read : DevVisionParseState → DevVision → List ℕ → Type 0
Read sync1 v h = Unit
Read sync2 v h = EndsIn h (0xAA ∷ [])
Read len_byte v h = EndsIn h (0xAA ∷ 0x55 ∷ [])
Read type_byte v h =
    EndsIn h (0xAA ∷ 0x55 ∷ v.len ∷ []) × (v.crc_calc ≡ v.len) × (0 < v.len) × (v.len ≤ 32)
Read data_byte v h = (bs : List ℕ) × EndsIn h (opening v bs) × Holds v bs × (v.index < v.len)
Read crc_byte v h = (bs : List ℕ) × EndsIn h (opening v bs) × Holds v bs × (v.index ≡ v.len)
Read cr_byte v h =
    (bs : List ℕ) × EndsIn h (opening v (bs ++ (v.crc_calc ∷ []))) × Holds v bs × (v.index ≡ v.len)
Read lf_byte v h =
    (bs : List ℕ) × EndsIn h (opening v (bs ++ (v.crc_calc ∷ 0x0D ∷ [])))
    × Holds v bs
    × (v.index ≡ v.len)

pub EndsIn-snoc : (h s : List ℕ) (b : ℕ) → EndsIn h s → EndsIn (h ++ (b ∷ [])) (s ++ (b ∷ []))
EndsIn-snoc h s b (before, e) = (before, ap (λ k. k ++ (b ∷ [])) e ∙ append_assoc before s (b ∷ []))

pub EndsIn-nil : (h : List ℕ) → EndsIn h []
EndsIn-nil h = (h, sym (append-nil h))

pub xor_bytes-snoc :
    (acc : ℕ) (bs : List ℕ) (b : ℕ) → xor_bytes acc (bs ++ (b ∷ [])) ≡ bit_xor (xor_bytes acc bs) b
xor_bytes-snoc acc [] b = refl
xor_bytes-snoc acc (c ∷ bs) b = xor_bytes-snoc (bit_xor acc c) bs b

-- A choice between two parsers, or between two states of one, is read case by case.
pub Read-if :
    (t : Bool) (x y : DevVision) (h : List ℕ)
    → (t ≡ true → Read x.state x h)
    → (t ≡ false → Read y.state y h)
    → Read (if t then x else y).state (if t then x else y) h
Read-if true x y h f g = f refl
Read-if false x y h f g = g refl

pub Read-state_if :
    (t : Bool) (v : DevVision) (p q : DevVisionParseState) (h : List ℕ)
    → (t ≡ true → Read p (record v { state = p }) h)
    → (t ≡ false → Read q (record v { state = q }) h)
    → Read (if t then p else q) (record v { state = if t then p else q }) h
Read-state_if true v p q h f g = f refl
Read-state_if false v p q h f g = g refl

pub Read-of_sync1 : (v : DevVision) (h : List ℕ) → v.state ≡ sync1 → Read v.state v h
Read-of_sync1 v h e = rw e tt

pub Read-of :
    (v : DevVision) (h : List ℕ) (s : DevVisionParseState)
    → v.state ≡ s
    → Read s v h
    → Read v.state v h
Read-of v h s e r = subst (λ s. Read s v h) (sym e) r

-- one more byte behind what was read
pub EndsIn-byte :
    (h s : List ℕ) (b c : ℕ) → EndsIn h s → (b == c) ≡ true → EndsIn (h ++ (b ∷ [])) (s ++ (c ∷ []))
EndsIn-byte h s b c r e = let same : b ≡ c = ground arith in rw (← same) (EndsIn-snoc h s b r)

pub on_data-cases :
    (v : DevVision) (b : ℕ)
    → v.state ≡ data_byte
    → v.index < v.len
    → ((on_data v b).len ≡ v.len)
      × ((on_data v b).frame_type ≡ v.frame_type)
      × ((on_data v b).index ≡ v.index + 1)
      × ((on_data v b).payload ≡ set v.payload v.index b)
      × ((on_data v b).crc_calc ≡ bit_xor v.crc_calc b)
      × (((on_data v b).state ≡ crc_byte) × (v.index + 1 ≡ v.len)
          ⊎ ((on_data v b).state ≡ data_byte) × (v.index + 1 < v.len))
unfolding on_data
on_data-cases v b s h = ground arith

pub get_or-snoc_last : (bs : List ℕ) (b : ℕ) → get_or (bs ++ (b ∷ [])) (length bs) 0 ≡ b
get_or-snoc_last [] b = refl
get_or-snoc_last (c ∷ bs) b = get_or-snoc_last bs b

pub get_or-snoc_lt :
    (bs : List ℕ) (b j : ℕ) → j < length bs → get_or (bs ++ (b ∷ [])) j 0 ≡ get_or bs j 0
get_or-snoc_lt [] b j h = absurd (omega arith)
get_or-snoc_lt (c ∷ bs) b zero h = refl
get_or-snoc_lt (c ∷ bs) b (suc j) h = get_or-snoc_lt bs b j (omega arith)

-- One more payload byte, held at its place and in the checksum.
pub Holds-snoc :
    (v w : DevVision) (bs : List ℕ) (b : ℕ)
    → Holds v bs
    → v.index < v.len
    → w.len ≡ v.len
    → w.frame_type ≡ v.frame_type
    → w.index ≡ v.index + 1
    → w.payload ≡ set v.payload v.index b
    → w.crc_calc ≡ bit_xor v.crc_calc b
    → Holds w (bs ++ (b ∷ []))
Holds-snoc v w bs b k lt el et ei ep ec = record {
  counted = length-append bs (b ∷ []) ∙ omega (arith, k.counted);
  fits = rw (el, ep, length-set v.payload v.index b) k.fits;
  placed = λ j h. rw ep (placed j h (dec_lt j (length bs)));
  summed = rw (el, et, xor_bytes-snoc (bit_xor v.len v.frame_type) bs b, ← k.summed) ec;
}
  where
    placed :
        (j : ℕ)
        → j < length (bs ++ (b ∷ []))
        → Dec (j < length bs)
        → get_or (set v.payload v.index b) j 0 ≡ get_or (bs ++ (b ∷ [])) j 0
    placed j h (yes old) =
        get_or-set_ne v.payload v.index j b 0 (omega (arith, k.counted))
        ∙ k.placed j old
        ∙ sym (get_or-snoc_lt bs b j old)
    placed j h (no new) =
        let e : j ≡ length bs = omega (arith, length-append bs (b ∷ [])) in
        rw (e, get_or-snoc_last bs b, k.counted)
          (get_or-set_self v.payload v.index b 0 (omega (arith, k.fits)))

module _ (v : DevVision) (h : List ℕ) (b now_ms : ℕ) where
  abbrev pub after : DevVisionParseState → DevVision
  after s = (on_state s v b now_ms).0

  abbrev pub grown : List ℕ
  grown = h ++ (b ∷ [])

  pub Read-sync1 : v.state ≡ sync1 → Read (after sync1).state (after sync1) grown
  unfolding on_state
  Read-sync1 s =
      Read-if (b == 0xAA) (record v { state = sync2 }) v grown
        (λ e. EndsIn-byte h [] b 0xAA (EndsIn-nil h) e) (λ _. Read-of_sync1 v grown s)

  pub Read-sync2 : Read sync2 v h → Read (after sync2).state (after sync2) grown
  unfolding on_state
  Read-sync2 r =
      Read-state_if (b == 0x55) v len_byte sync1 grown (λ e. EndsIn-byte h (0xAA ∷ []) b 0x55 r e)
        (λ _. tt)

  pub Read-len : Read len_byte v h → Read (after len_byte).state (after len_byte) grown
  unfolding on_state
  Read-len r =
      Read-if (b == 0 || ltb 32 b) (record v { state = sync1 })
        (record v { len = b; crc_calc = b; state = type_byte }) grown (λ _. tt)
        (λ e. (EndsIn-snoc h (0xAA ∷ 0x55 ∷ []) b r, refl, ground arith, ground arith))

  pub Read-type :
      length v.payload ≡ 32
      → Read type_byte v h
      → Read (after type_byte).state (after type_byte) grown
  unfolding on_state
  Read-type p (r, c, n, m) = (
    [],
    EndsIn-snoc h (0xAA ∷ 0x55 ∷ v.len ∷ []) b r,
    record {
      counted = refl;
      fits = omega arith;
      placed = λ j lt. absurd (omega arith);
      summed = ap (λ k. bit_xor k b) c;
    },
    n,
  )

  pub Read-crc : Read crc_byte v h → Read (after crc_byte).state (after crc_byte) grown
  unfolding on_state
  Read-crc (bs, r, k, n) =
      Read-state_if (b == v.crc_calc) v cr_byte sync1 grown
        (λ e. (
          bs,
          EndsIn-byte h (opening v bs) b v.crc_calc r e,
          record { counted = k.counted; fits = k.fits; placed = k.placed; summed = k.summed },
          n,
        ))
        (λ _. tt)

  pub Read-cr : Read cr_byte v h → Read (after cr_byte).state (after cr_byte) grown
  unfolding on_state
  Read-cr (bs, r, k, n) =
      Read-state_if (b == 0x0D) v lf_byte sync1 grown
        (λ e. (
          bs,
          rw (append_assoc bs (v.crc_calc ∷ []) (0x0D ∷ [])) at
              (EndsIn-byte h (opening v (bs ++ (v.crc_calc ∷ []))) b 0x0D r e),
          record { counted = k.counted; fits = k.fits; placed = k.placed; summed = k.summed },
          n,
        ))
        (λ _. tt)

  pub Read-data :
      v.state ≡ data_byte
      → Read data_byte v h
      → Read (after data_byte).state (after data_byte) grown
  unfolding on_state
  Read-data s (bs, r, k, n) =
      let w = on_data v b in
      let (el, et, ei, ep, ec, way) = on_data-cases v b s n in
      let ends : EndsIn grown (opening w (bs ++ (b ∷ []))) =
        rw (el, et) (EndsIn-snoc h (opening v bs) b r) in
      let held = Holds-snoc v w bs b k n el et ei ep ec in
      elim way [
        | inl last ↦ Read-of w grown crc_byte last.0 (bs ++ (b ∷ []), ends, held, omega arith)
        | inr more ↦ Read-of w grown data_byte more.0 (bs ++ (b ∷ []), ends, held, omega arith)
      ]

  pub Read-lf : Read (after lf_byte).state (after lf_byte) grown
  unfolding on_state
  Read-lf = Read-of_sync1 (after lf_byte) grown (ground arith)
