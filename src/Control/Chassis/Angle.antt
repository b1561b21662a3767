-- ===== src/Control/Chassis/Angle.antt =====
-- The loops that bring an angle back into its range.
use nuedc_control_freertos.Prelude.{
  ℕ, zero, suc, ◌+◌, ◌≤◌, true, false, ◌≡◌, refl, arith, Bool-cases, inl, inr, ◌⊎◌,
}
use nuedc_control_freertos.Control.Floats.{Floats}
use nuedc_control_freertos.Control.Chassis.{pi, angle_fuel, wrap_down, wrap_up, wrap_pi}

module _ (fl : Floats) where
  open fl use {Float, lit, add, sub, mul, neg, lt}

  abbrev pub turn : Float
  turn = mul (lit 2 0) (pi fl)

  -- an angle less, and more, so many whole turns
  unfoldable pub turned_down : ℕ → Float → Float
  turned_down zero x = x
  turned_down (suc n) x = turned_down n (sub x turn)

  unfoldable pub turned_up : ℕ → Float → Float
  turned_up zero x = x
  turned_up (suc n) x = turned_up n (add x turn)

  -- no comparison finds the angle above pi or below -pi
  abbrev pub IsAngle : Float → Type 0
  IsAngle x = (lt (pi fl) x ≡ false) × (lt x (neg (pi fl)) ≡ false)

  -- The arithmetic of angles of a moderate size: a whole turn off an angle above pi does not lead
  -- below -pi and makes it smaller, and likewise a turn added.
  pub record Turning (size : Float → ℕ) : Type 0 where
    pub lands_down : (x : Float) → lt (pi fl) x ≡ true → lt (sub x turn) (neg (pi fl)) ≡ false
    pub lands_up : (x : Float) → lt x (neg (pi fl)) ≡ true → lt (pi fl) (add x turn) ≡ false
    pub falls :
        (x : Float) → lt (pi fl) x ≡ true → size x ≤ angle_fuel fl → size (sub x turn) + 1 ≤ size x
    pub rises :
        (x : Float)
        → lt x (neg (pi fl)) ≡ true
        → size x ≤ angle_fuel fl
        → size (add x turn) + 1 ≤ size x

  -- An angle in its range, at most as many whole turns from the one given as its size says.
  abbrev pub IsWrapped : (Float → ℕ) → Float → Float → Type 0
  IsWrapped size x y =
      IsAngle y × ((n : ℕ) × (n ≤ size x) × ((y ≡ turned_down n x) ⊎ (y ≡ turned_up n x)))

  module _ (size : Float → ℕ) (laws : Turning size) where
    down-IsAngle :
        (fuel : ℕ) (x : Float)
        → fuel ≤ angle_fuel fl
        → size x ≤ fuel
        → (lt (pi fl) x ≡ true) ⊎ (lt x (neg (pi fl)) ≡ false)
        → IsAngle (wrap_down fl fuel x)
          × ((n : ℕ) × (n ≤ size x) × (wrap_down fl fuel x ≡ turned_down n x))
    unfolding wrap_down turned_down
    down-IsAngle zero x few small landed = elim (Bool-cases (lt (pi fl) x)) [
      | inl over ↦ absurd (omega (arith, small, laws.falls x over (omega (arith, small))))
      | inr fine ↦ ((fine, ground (arith, landed, fine)), (0, omega arith, refl))
    ]
    down-IsAngle (suc fuel) x few small landed = elim (Bool-cases (lt (pi fl) x)) [
      | inl over ↦
          let less = laws.falls x over (omega (arith, few, small)) in
          let (ends, (n, fewer, same)) =
            down-IsAngle fuel (sub x turn) (omega (arith, few)) (omega (arith, small, less))
              (inr (laws.lands_down x over)) in
          rw over (ends, (suc n, omega (arith, fewer, less), same))
      | inr fine ↦ rw fine ((fine, ground (arith, landed, fine)), (0, omega arith, refl))
    ]

    up-IsAngle :
        (fuel : ℕ) (x : Float)
        → fuel ≤ angle_fuel fl
        → size x ≤ fuel
        → lt (pi fl) x ≡ false
        → IsAngle (wrap_up fl fuel x)
          × ((n : ℕ) × (n ≤ size x) × (wrap_up fl fuel x ≡ turned_up n x))
    unfolding wrap_up turned_up
    up-IsAngle zero x few small landed = elim (Bool-cases (lt x (neg (pi fl)))) [
      | inl under ↦ absurd (omega (arith, small, laws.rises x under (omega (arith, small))))
      | inr fine ↦ ((landed, fine), (0, omega arith, refl))
    ]
    up-IsAngle (suc fuel) x few small landed = elim (Bool-cases (lt x (neg (pi fl)))) [
      | inl under ↦
          let less = laws.rises x under (omega (arith, few, small)) in
          let (ends, (n, fewer, same)) =
            up-IsAngle fuel (add x turn) (omega (arith, few)) (omega (arith, small, less))
              (laws.lands_up x under) in
          rw under (ends, (suc n, omega (arith, fewer, less), same))
      | inr fine ↦ rw fine ((landed, fine), (0, omega arith, refl))
    ]

    -- an angle in its range stays as it is
    wrap_up_fine : (fuel : ℕ) (x : Float) → lt x (neg (pi fl)) ≡ false → wrap_up fl fuel x ≡ x
    unfolding wrap_up
    wrap_up_fine zero x fine = refl
    wrap_up_fine (suc fuel) x fine = rw fine refl

    wrap_down_fine : (fuel : ℕ) (x : Float) → lt (pi fl) x ≡ false → wrap_down fl fuel x ≡ x
    unfolding wrap_down
    wrap_down_fine zero x fine = refl
    wrap_down_fine (suc fuel) x fine = rw fine refl

    wrap_over :
        (x : Float) → lt (pi fl) x ≡ true → size x ≤ angle_fuel fl → IsWrapped size x (wrap_pi fl x)
    unfolding wrap_pi
    wrap_over x over small =
        let (ends, (n, few, same)) =
          down-IsAngle (angle_fuel fl) x (omega arith) small (inl over) in
        rw (wrap_up_fine (angle_fuel fl) (wrap_down fl (angle_fuel fl) x) ends.1)
          (ends, (n, few, inl same))

    -- Where the arithmetic of angles is as Turning says: an angle of a size up to the fuel is brought
    -- between -pi and pi by both loops before the fuel runs out, and what they leave is the angle
    -- less, or more, at most as many whole turns as its size says.
    pub wrap_pi-IsWrapped : (x : Float) → size x ≤ angle_fuel fl → IsWrapped size x (wrap_pi fl x)
    unfolding wrap_pi
    wrap_pi-IsWrapped x small = elim (Bool-cases (lt (pi fl) x)) [
      | inl over ↦ wrap_over x over small
      | inr fine ↦
          let (ends, (n, few, same)) = up-IsAngle (angle_fuel fl) x (omega arith) small fine in
          rw (wrap_down_fine (angle_fuel fl) x fine) (ends, (n, few, inr same))
    ]
