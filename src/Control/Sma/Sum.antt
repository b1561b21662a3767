-- ===== src/Control/Sma/Sum.antt =====
-- The running sum of the moving average.
use nuedc_control_freertos.Prelude.{
  ℕ, zero, suc, ◌+◌, ◌*◌, ◌%◌, ◌≤◌, ◌<◌, List, [], ◌∷◌, ◌≡◌, ap, ◌∙◌, arith, ℤ, pos, ◌+ℤ◌, ◌-ℤ◌,
  ◌≤ℤ◌, get_or, set, length, length-set, All, get_or-All, set-All, int_laws, parts_of_eq, u8,
  to_i32, to_i32_of_IsI32,
}
use nuedc_control_freertos.Control.Sma.{Sma, div_len, update}

abbrev pub total : List ℤ → ℤ
total [] = pos 0
total (x ∷ xs) = x +ℤ total xs

-- a seventeenth of the range of 32 bits
abbrev limit : ℕ
limit = 126322567

abbrev pub Between : ℕ → ℤ → Type 0
Between n z = (z ≤ℤ pos n) × (pos 0 ≤ℤ z +ℤ pos n)

-- a value of which sixteen, and one more, fit the sum
abbrev pub IsSmall : ℤ → Type 0
IsSmall z = Between limit z

-- Sixteen places of small values, an index inside the length, and a sum that is the sum of the
-- places.
pub record IsValid (s : Sma) : Type 0 where
  pub places : length s.buf ≡ 16
  pub small : All IsSmall s.buf
  pub short : s.len ≤ 16
  pub inside : s.idx < s.len
  pub summed : s.sum ≡ total s.buf

total-step : (a b c t u : ℤ) → a -ℤ b +ℤ c ≡ t → u +ℤ a -ℤ b +ℤ c ≡ u +ℤ t
total-step a b c t u h = omega (int_laws, parts_of_eq _ _ h)

total-head : (y t x : ℤ) → y +ℤ t -ℤ y +ℤ x ≡ x +ℤ t
total-head y t x = omega int_laws

total-set :
    (xs : List ℤ) (i : ℕ) (x : ℤ)
    → i < length xs
    → total xs -ℤ get_or xs i (pos 0) +ℤ x ≡ total (set xs i x)
total-set [] i x h = absurd (omega arith)
total-set (y ∷ xs) zero x h = total-head y (total xs) x
total-set (y ∷ xs) (suc i) x h =
    total-step (total xs) (get_or xs i (pos 0)) x (total (set xs i x)) y
      (total-set xs i x (omega arith))

+ℤ-Between : (n m : ℕ) (y t : ℤ) → Between n y → Between m t → Between (n + m) (y +ℤ t)
+ℤ-Between n m y t (y_above, y_below) (t_above, t_below) = (
  omega (int_laws, y_above, y_below, t_above, t_below),
  omega (int_laws, y_above, y_below, t_above, t_below),
)

total-Between : (xs : List ℤ) → All IsSmall xs → Between (length xs * limit) (total xs)
total-Between [] h = (omega int_laws, omega int_laws)
total-Between (x ∷ xs) (h, hs) =
    let here : suc (length xs) * limit ≡ limit + length xs * limit = omega arith in
    rw here (+ℤ-Between limit (length xs * limit) x (total xs) h (total-Between xs hs))

-- neither the difference nor the new sum leaves the range
sum_in_range :
    (t old x : ℤ)
    → Between (16 * limit) t
    → Between limit old
    → Between (16 * limit) (t -ℤ old +ℤ x)
    → to_i32 (to_i32 (t -ℤ old) +ℤ x) ≡ t -ℤ old +ℤ x
sum_in_range t old x (t_above, t_below) (above, below) (new_above, new_below) =
    rw
      (to_i32_of_IsI32 (t -ℤ old) (
        omega (int_laws, t_above, t_below, above, below),
        omega (int_laws, t_above, t_below, above, below),
      ))
      (to_i32_of_IsI32 (t -ℤ old +ℤ x)
        (omega (int_laws, new_above, new_below), omega (int_laws, new_above, new_below)))

-- On a valid average, an update with a value of at most 126322567 either way leaves it valid: the
-- 32-bit sum does not overflow and is the sum of the places, and the index stays inside the length.
-- The result is the sum of the places by the length, towards zero.
pub update-IsValid :
    (s : Sma) (x : ℤ)
    → IsValid s
    → IsSmall x
    → IsValid (update s x).0 × ((update s x).1 ≡ div_len (total (update s x).0.buf) s.len)
unfolding update
update-IsValid s x v fits = (
  record {
    places = kept;
    small = small;
    short = v.short;
    inside = next_inside s.idx s.len v.inside v.short;
    summed = sum;
  },
  ap (λ t. div_len t s.len) sum,
)
  where
    next_inside : (i n : ℕ) → i < n → n ≤ 16 → u8 ((i + 1) % n) < n
    next_inside i n h small = grind arith

    kept : length (set s.buf s.idx x) ≡ 16
    kept = length-set s.buf s.idx x ∙ v.places

    small : All IsSmall (set s.buf s.idx x)
    small = set-All IsSmall s.buf s.idx x v.small fits

    old : IsSmall (get_or s.buf s.idx (pos 0))
    old = get_or-All IsSmall s.buf s.idx (pos 0) v.small (omega int_laws, omega int_laws)

    changed : total s.buf -ℤ get_or s.buf s.idx (pos 0) +ℤ x ≡ total (set s.buf s.idx x)
    changed = total-set s.buf s.idx x (omega (arith, v.places, v.short, v.inside))

    before : Between (16 * limit) (total s.buf)
    before = rw v.places at (total-Between s.buf v.small)

    after : Between (16 * limit) (total (set s.buf s.idx x))
    after = rw kept at (total-Between (set s.buf s.idx x) small)

    sum : to_i32 (to_i32 (s.sum -ℤ get_or s.buf s.idx (pos 0)) +ℤ x) ≡ total (set s.buf s.idx x)
    sum = rw v.summed (
        sum_in_range (total s.buf) (get_or s.buf s.idx (pos 0)) x before old (rw changed after)
        ∙ changed)
