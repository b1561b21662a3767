-- ===== src/Telemetry/RttLog/Queue.antt =====
-- The debug log as a queue: what the debugger has still to read, oldest byte first.
use nuedc_control_freertos.Prelude.{
  ℕ, zero, suc, ◌+◌, ◌-◌, ◌≤◌, ◌<◌, some, List, [], ◌∷◌, ◌++◌, ◌≡◌, refl, sym, ap, ◌∙◌, arith,
  length, get_or, set, length-set, get_or-set_self, get_or-set_ne, leb, ltb, if◌then◌else◌,
}
use mathlib.Core.Path.{ap₂, subst}
use native.Mathlib.Nat.{add-zero}
use mathlib.Core.List.{append_assoc, append-nil}
use nuedc_control_freertos.Telemetry.RttLog.{RttBufferUp, space_available, copy, write}

-- The offsets lie in the buffer, which has room for two bytes or more.
pub record IsValid (b : RttBufferUp) : Type 0 where
  pub sized : length b.buffer ≡ b.size
  pub room : 1 < b.size
  pub small : b.size < 2147483648
  pub wr_in : b.wr_off < b.size
  pub rd_in : b.rd_off < b.size

-- the index `n` places on, for `n` up to the size
abbrev advance : ℕ → ℕ → ℕ → ℕ
advance size i n = if ltb (i + n) size then i + n else i + n - size

-- the bytes of `n` places from an index on, going round at the size
abbrev pub window : List ℕ → ℕ → ℕ → ℕ → List ℕ
window buf size i zero = []
window buf size i (suc n) =
    get_or buf i 0 ∷ window buf size (if leb size (i + 1) then 0 else i + 1) n

-- the number of bytes not yet read
abbrev pub unread : RttBufferUp → ℕ
unread b = if ltb b.wr_off b.rd_off then b.wr_off + b.size - b.rd_off else b.wr_off - b.rd_off

abbrev pub contents : RttBufferUp → List ℕ
contents b = window b.buffer b.size b.rd_off (unread b)

-- The free space is what is left of the size, less one place.
pub space_available-unread :
    (b : RttBufferUp) → IsValid b → space_available b + unread b + 1 ≡ b.size
unfolding space_available
space_available-unread b v = ground arith

window-set :
    (buf : List ℕ) (size c wr i n : ℕ)
    → size ≤ length buf
    → i < size
    → n < size
    → wr ≡ advance size i n
    → window (set buf wr c) size i (suc n) ≡ window buf size i n ++ (c ∷ [])
window-set buf size c wr i zero hs hi hn e =
    let here : wr ≡ i = ground arith in
    rw here (ap (λ x. x ∷ []) (get_or-set_self buf i c 0 (omega arith)))
window-set buf size c wr i (suc n) hs hi hn e =
    ap₂ ◌∷◌ (get_or-set_ne buf wr i c 0 (ground arith)) (
      window-set buf size c wr (if leb size (i + 1) then 0 else i + 1) n hs (ground arith)
        (omega arith) (ground arith))

-- the loop's step of the write offset
abbrev next : ℕ → ℕ → ℕ
next size wr = if leb size (wr + 1) then 0 else wr + 1

-- The copying loop appends its bytes to the window, and leaves the offset behind them.
copy-window :
    (size i n wr : ℕ) (buf bytes : List ℕ)
    → size ≤ length buf
    → i < size
    → n + length bytes < size
    → wr ≡ advance size i n
    → (window (copy size buf wr bytes).0 size i (n + length bytes) ≡ window buf size i n ++ bytes)
      × ((copy size buf wr bytes).1 ≡ advance size i (n + length bytes))
      × (length (copy size buf wr bytes).0 ≡ length buf)
unfolding copy
copy-window size i n wr buf [] hs hi hn e =
    rw (add-zero, append-nil (window buf size i n)) (refl, e, refl)
copy-window size i n wr buf (c ∷ cs) hs hi hn e =
    let ih =
      copy-window size i (suc n) (next size wr) (set buf wr c) cs
        (omega (arith, length-set buf wr c)) hi (omega arith) (ground arith) in
    let count : n + suc (length cs) ≡ suc n + length cs = omega arith in
    rw count (
      ih.0
          ∙ ap (λ w. w ++ cs) (window-set buf size c wr i n hs hi (omega arith) e)
          ∙ append_assoc (window buf size i n) (c ∷ []) cs,
      ih.1,
      ih.2 ∙ length-set buf wr c,
    )

-- The write offset stands behind the unread bytes.
wr_off-advance : (b : RttBufferUp) → IsValid b → b.wr_off ≡ advance b.size b.rd_off (unread b)
wr_off-advance b v = ground arith

-- A buffer whose write offset stands `n` places behind the read offset has `n` bytes unread.
moved :
    (b : RttBufferUp) (buf : List ℕ) (wr n : ℕ)
    → IsValid b
    → length buf ≡ length b.buffer
    → n < b.size
    → wr ≡ advance b.size b.rd_off n
    → let b' = record b { buffer = buf; wr_off = wr } in (unread b' ≡ n) × IsValid b'
moved b buf wr n v same h e = ground arith

-- A write that finds room, and is not empty.
abbrev HasRoom : RttBufferUp → List ℕ → Type 0
HasRoom b bytes = (0 < length bytes) × (length bytes ≤ space_available b)

write_of_room :
    (b : RttBufferUp) (bytes : List ℕ)
    → IsValid b
    → HasRoom b bytes
    → write b (some bytes) ≡ record b {
      buffer = (copy b.size b.buffer b.wr_off bytes).0;
      wr_off = (copy b.size b.buffer b.wr_off bytes).1;
    }
unfolding write
write_of_room b bytes v h = ground (arith, space_available-unread b v)

-- A message that fits in the free space is appended whole to what the debugger has still to read,
-- the offsets stay in the buffer, and nothing unread is lost.
pub write-appends :
    (b : RttBufferUp) (bytes : List ℕ)
    → IsValid b
    → 0 < length bytes
    → length bytes ≤ space_available b
    → (contents (write b (some bytes)) ≡ contents b ++ bytes) × IsValid (write b (some bytes))
write-appends b bytes v some_bytes fits =
    let total = unread b + length bytes in
    let free = space_available-unread b v in
    let out = copy b.size b.buffer b.wr_off bytes in
    let k =
      copy-window b.size b.rd_off (unread b) b.wr_off b.buffer bytes (omega (arith, v.sized))
        v.rd_in (omega arith) (wr_off-advance b v) in
    let (count, valid) = moved b out.0 out.1 total v k.2 (omega arith) k.1 in
    subst (λ w. (contents w ≡ contents b ++ bytes) × IsValid w)
      (sym (write_of_room b bytes v (some_bytes, fits)))
      (ap (window out.0 b.size b.rd_off) count ∙ k.0, valid)

-- A message that does not fit is dropped whole.
pub write-drops :
    (b : RttBufferUp) (bytes : List ℕ)
    → IsValid b
    → space_available b < length bytes
    → write b (some bytes) ≡ b
unfolding write
write-drops b bytes v h = ground arith
