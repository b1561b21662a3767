-- ===== src/Vision/Sound.antt =====
-- The parser reports nothing but well-formed frames.
use nuedc_control_freertos.Prelude.{
  ℕ, ◌≤◌, true, false, ◌&&◌, List, [], ◌∷◌, ◌++◌, ◌≡◌, refl, sym, ap, ◌∙◌, ◌⊎◌, arith, length,
  get_or, bit_xor, length-set, leb, ◌==◌, Bool-cases, inl, inr,
}
use mathlib.Core.Path.{subst}
use mathlib.Core.List.{append_assoc}
use nuedc_control_freertos.Vision.Accept.{target_of}
use nuedc_control_freertos.Vision.{
  target_event, command_event, DevVision, DevVisionEvent, DevVisionParseState, sync1, sync2,
  len_byte, type_byte, data_byte, crc_byte, cr_byte, lf_byte, init, reset_parser, has_fresh_target,
  on_state, on_rx_byte,
}
use nuedc_control_freertos.Vision.Frame.{xor_bytes, checksum, frame}
use nuedc_control_freertos.Vision.Read.{
  EndsIn, opening, Holds, Read, EndsIn-snoc, Read-sync1, Read-sync2, Read-len, Read-type, Read-data,
  Read-crc, Read-cr, Read-lf,
}

-- The parser and the bytes that it has been given, in any order of calls.
pub data History : DevVision → List ℕ → Type 0 where
  fresh : History init []
  byte :
      {v : DevVision} {h : List ℕ}
      → History v h
      → (b now_ms : ℕ) → History (on_rx_byte v b now_ms).0 (h ++ (b ∷ []))
  reset : {v : DevVision} {h : List ℕ} → History v h → History (reset_parser v) h
  seen : {v : DevVision} {h : List ℕ} → History v h → History (has_fresh_target v).0 h

length-payload :
    (s : DevVisionParseState) (v : DevVision) (b now_ms : ℕ)
    → length (on_state s v b now_ms).0.payload ≡ length v.payload
unfolding on_state
length-payload s v b now_ms = ground (arith, length-set v.payload v.index b)

Read-state :
    (s : DevVisionParseState) (v : DevVision) (h : List ℕ) (b now_ms : ℕ)
    → v.state ≡ s
    → length v.payload ≡ 32
    → Read s v h
    → Read (on_state s v b now_ms).0.state (on_state s v b now_ms).0 (h ++ (b ∷ []))
Read-state sync1 v h b now_ms e p r = Read-sync1 v h b now_ms e
Read-state sync2 v h b now_ms e p r = Read-sync2 v h b now_ms r
Read-state len_byte v h b now_ms e p r = Read-len v h b now_ms r
Read-state type_byte v h b now_ms e p r = Read-type v h b now_ms p r
Read-state data_byte v h b now_ms e p r = Read-data v h b now_ms e r
Read-state crc_byte v h b now_ms e p r = Read-crc v h b now_ms r
Read-state cr_byte v h b now_ms e p r = Read-cr v h b now_ms r
Read-state lf_byte v h b now_ms e p r = Read-lf v h b now_ms

-- the parser with the mark of a new target taken away
abbrev unmarked : DevVision → DevVision
unmarked v = record v { fresh_target = false }

Holds-unmarked : (v : DevVision) (bs : List ℕ) → Holds v bs → Holds (unmarked v) bs
Holds-unmarked v bs k = record {
  counted = k.counted;
  fits = k.fits;
  placed = k.placed;
  summed = k.summed;
}

Read-unmarked :
    (s : DevVisionParseState) (v : DevVision) (h : List ℕ) → Read s v h → Read s (unmarked v) h
Read-unmarked sync1 v h r = tt
Read-unmarked sync2 v h r = r
Read-unmarked len_byte v h r = r
Read-unmarked type_byte v h r = r
Read-unmarked data_byte v h (bs, r, k, n) = (bs, r, Holds-unmarked v bs k, n)
Read-unmarked crc_byte v h (bs, r, k, n) = (bs, r, Holds-unmarked v bs k, n)
Read-unmarked cr_byte v h (bs, r, k, n) = (bs, r, Holds-unmarked v bs k, n)
Read-unmarked lf_byte v h (bs, r, k, n) = (bs, r, Holds-unmarked v bs k, n)

-- Asking for a new target gives the same parser, or the one with the mark taken away.
has_fresh_target-cases :
    (v : DevVision) → ((has_fresh_target v).0 ≡ unmarked v) ⊎ ((has_fresh_target v).0 ≡ v)
unfolding has_fresh_target
has_fresh_target-cases v = elim (Bool-cases v.fresh_target) [
  | inl e ↦ inl (ground arith)
  | inr e ↦ inr (ground arith)
]

abbrev Sized : DevVision → List ℕ → Type 0
Sized v h = Read v.state v h × (length v.payload ≡ 32)

History-Read : {v : DevVision} {h : List ℕ} → History v h → Sized v h
unfolding init on_rx_byte reset_parser
History-Read fresh = (tt, refl)
History-Read (byte {v} {h} before b now_ms) =
    let (r, p) = History-Read before in
    (Read-state v.state v h b now_ms refl p r, length-payload v.state v b now_ms ∙ p)
History-Read (reset before) = (tt, (History-Read before).1)
History-Read (seen {v} {h} before) =
    let (r, p) = History-Read before in
    elim (has_fresh_target-cases v) [
      | inl e ↦ subst (λ w. Sized w h) (sym e) (Read-unmarked v.state v h r, p)
      | inr e ↦ subst (λ w. Sized w h) (sym e) (r, p)
    ]

-- What a report of a payload says: a target for type 1 with 7 bytes or more, a command for type 2.
abbrev pub Tells : ℕ → List ℕ → ℕ → DevVisionEvent → Type 0
Tells type bs now_ms event =
    (type ≡ 1)
      × (7 ≤ length bs)
      × (event.type ≡ target_event)
      × (event.target ≡ target_of bs now_ms)
    ⊎ (type ≡ 2) × (event.type ≡ command_event) × (event.command ≡ get_or bs 0 0)

reports-lf :
    (s : DevVisionParseState) (v : DevVision) (b now_ms : ℕ)
    → (on_state s v b now_ms).1 ≡ true
    → (s ≡ lf_byte) × (b ≡ 0x0A)
unfolding on_state
reports-lf s v b now_ms e = ground arith

dispatch-Tells :
    (v : DevVision) (bs : List ℕ) (b now_ms : ℕ)
    → Holds v bs
    → v.index ≡ v.len
    → (on_state lf_byte v b now_ms).1 ≡ true
    → Tells v.frame_type bs now_ms (on_state lf_byte v b now_ms).2
unfolding on_state
dispatch-Tells v bs b now_ms k n e = elim (Bool-cases (v.frame_type == 0x01 && leb 7 v.len)) [
  | inl target ↦ inl (
    ground arith,
    ground (arith, k.counted),
    ground arith,
    ground (
      arith,
      k.counted,
      k.placed 0,
      k.placed 1,
      k.placed 2,
      k.placed 3,
      k.placed 4,
      k.placed 5,
      k.placed 6,
    ),
  )
  | inr other ↦ inr (ground arith, ground arith, ground (arith, k.counted, k.placed 0))
]

lf-frame :
    (v : DevVision) (h : List ℕ) (b : ℕ) (bs : List ℕ)
    → b ≡ 0x0A
    → EndsIn h (opening v (bs ++ (v.crc_calc ∷ 0x0D ∷ [])))
    → Holds v bs
    → v.index ≡ v.len
    → EndsIn (h ++ (b ∷ [])) (frame v.frame_type bs)
lf-frame v h b bs eb ends k n =
    let len : v.len ≡ length bs = omega (arith, k.counted) in
    let sum : v.crc_calc ≡ checksum v.frame_type bs =
      k.summed ∙ ap (λ l. xor_bytes (bit_xor l v.frame_type) bs) len in
    subst (EndsIn (h ++ (b ∷ [])))
      (rw (append_assoc bs (v.crc_calc ∷ 0x0D ∷ []) (b ∷ []), eb, sum, len))
      (EndsIn-snoc h (opening v (bs ++ (v.crc_calc ∷ 0x0D ∷ []))) b ends)

-- A parser reports only at the last byte of a well-formed frame: the bytes that it was given end
-- in the frame of some payload with its length and checksum, and the report tells that payload.
pub report-frame :
    {v : DevVision} {h : List ℕ} (b now_ms : ℕ)
    → History v h
    → (on_rx_byte v b now_ms).1 ≡ true
    → (bs : List ℕ) × EndsIn (h ++ (b ∷ [])) (frame v.frame_type bs)
      × Tells v.frame_type bs now_ms (on_rx_byte v b now_ms).2
unfolding on_rx_byte
report-frame {v} {h} b now_ms past e =
    let (es, eb) = reports-lf v.state v b now_ms e in
    let (bs, ends, k, n) = read_lf es in
    (
      bs,
      lf-frame v h b bs eb ends k n,
      subst (λ s. Tells v.frame_type bs now_ms (on_state s v b now_ms).2) (sym es)
          (dispatch-Tells v bs b now_ms k n (subst (λ s. (on_state s v b now_ms).1 ≡ true) es e)),
    )
  where
    read_lf : v.state ≡ lf_byte → Read lf_byte v h
    read_lf es = subst (λ s. Read s v h) es (History-Read past).0
