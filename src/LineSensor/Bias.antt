-- ===== src/LineSensor/Bias.antt =====
-- The weighted sum of an update against its strength.
use native.Mathlib.Nat.{mul-le-mul_right}
use nuedc_control_freertos.Prelude.{
  ℕ, zero, suc, ◌+◌, ◌-◌, ◌*◌, ◌^◌, ◌≤◌, ◌<◌, ℤ, pos, negsuc, ◌+ℤ◌, ◌-ℤ◌, ◌*ℤ◌, pos_part, neg_part,
  to_i16, List, [], ◌∷◌, take, length, get_or, true, ◌≡◌, arith, u32,
}
use nuedc_control_freertos.Control.Floats.{Floats}
use nuedc_control_freertos.Platform.LineSensor as Drv
use nuedc_control_freertos.Platform.LineSensor.{max_count}
use nuedc_control_freertos.LineSensor.{
  DevLineSensor, get_count, clamp_count, sensor_weight, sums, above, least, evaluate,
  get_strength_threshold, clamp_u16,
}

-- between -c and c
abbrev pub Within : ℕ → ℤ → Type 0
Within c z = (pos_part z ≤ c) × (neg_part z ≤ c)

weight-Within :
    (i count : ℕ) → i < count → count ≤ max_count → Within (count - 1) (sensor_weight i count)
unfolding sensor_weight to_i16 ◌-ℤ◌
weight-Within i count lt le = ground arith

scaled-Within : (c v : ℕ) (w : ℤ) → Within c w → Within (c * v) (w *ℤ pos v)
unfolding ◌*ℤ◌
scaled-Within c v (pos n) h = let below = mul-le-mul_right v h.0 in ground (arith, below)
scaled-Within c v (negsuc n) h = let below = mul-le-mul_right v h.1 in ground (arith, below)

sum-Within :
    (c s v : ℕ) (w x : ℤ) → Within (c * s) w → Within (c * v) x → Within (c * (s + v)) (w +ℤ x)
unfolding ◌+ℤ◌
sum-Within c s v w x h k = ground arith

-- Up to 8 values of 16 bits, weighted by their places: the weighted sum is at most the strength times
-- the span of the places, either way.
sums-Within :
    (count min i : ℕ) (vs : List ℕ) (s : ℕ) (w : ℤ)
    → i + length vs ≤ count
    → count ≤ max_count
    → s + 65536 * length vs < 2 ^ 32
    → Within ((count - 1) * s) w
    → Within ((count - 1) * (sums count min i vs s w).0) (sums count min i vs s w).1
unfolding sums
sums-Within count min i [] s w places few short h = h
sums-Within count min i (v ∷ vs) s w places few short h =
    let x = above min v in
    let weight = sensor_weight i count in
    let scaled = scaled-Within (count - 1) x weight (weight-Within i count (omega arith) few) in
    let exact : u32 (s + x) ≡ s + x = omega arith in
    sums-Within count min (i + 1) vs (u32 (s + x)) (w +ℤ weight *ℤ pos x) (omega arith) few
      (omega arith) (rw exact (sum-Within (count - 1) s x w (weight *ℤ pos x) h scaled))

length-take_le : (n : ℕ) (vs : List ℕ) → length (take n vs) ≤ n
length-take_le zero vs = omega arith
length-take_le (suc n) [] = omega arith
length-take_le (suc n) (v ∷ vs) = omega (arith, length-take_le n vs)

module _ (fl : Floats) where
  get_count-le : (sensor : DevLineSensor fl.Float) → get_count fl sensor ≤ max_count
  unfolding get_count clamp_count Drv.count
  get_count-le sensor = ground arith

  -- Where an update of the sensor finds the line, the strength is not 0, and the weighted sum is at
  -- most the strength times one less than the count of values, either way.
  pub evaluate-Within :
      (sensor : DevLineSensor fl.Float) (raw : List ℕ)
      → let count = get_count fl sensor in
        let (frame, strength, weighted) = evaluate fl sensor count raw in
        frame.on_line ≡ true → (0 < strength) × Within ((count - 1) * strength) weighted
  unfolding evaluate get_strength_threshold clamp_u16
  evaluate-Within sensor raw on =
      let count = get_count fl sensor in
      let values = take count raw in
      let few = get_count-le sensor in
      let fits = length-take_le count raw in
      (
        ground arith,
        sums-Within count (least (get_or raw 0 0) values) 0 values 0 (pos 0) (omega arith) few
            (omega arith) (omega arith, omega arith),
      )
