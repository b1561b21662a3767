-- ===== src/Control/Pid/Limits.antt =====
-- The limits of the PID regulator's output and integral.
use nuedc_control_freertos.Prelude.{true, false, ◌≡◌, Bool-cases, inl, inr}
use nuedc_control_freertos.Control.Floats.{Floats}
use nuedc_control_freertos.Control.Pid
use nuedc_control_freertos.Control.Pid.{Pid, integrates, i_limit, update}

-- No comparison finds a value above the upper limit or below the lower one.
abbrev pub Between : (fl : Floats) → (lo hi x : fl.Float) → Type 0
Between fl lo hi x = (fl.lt hi x ≡ false) × (fl.lt x lo ≡ false)

module _ (fl : Floats) (irreflexive : (x : fl.Float) → fl.lt x x ≡ false) where
  open fl use {Float, lt, neg}

  -- `limit` keeps between limits that are in order, whatever is compared, a NaN included.
  limit-Between : (lo hi x : Float) → lt hi lo ≡ false → Between fl lo hi (Pid.limit fl lo hi x)
  unfolding Pid.limit
  limit-Between lo hi x ordered = elim (Bool-cases (lt hi x)) [
    | inl over ↦ rw (over, ordered) (irreflexive hi, ordered)
    | inr under ↦ elim (Bool-cases (lt x lo)) [
      | inl low ↦ rw (under, low) (ordered, irreflexive lo)
      | inr fine ↦ rw (under, fine) (under, fine)
    ]
  ]

  -- If no number is less than itself and both pairs of limits are in order: whatever is measured,
  -- no comparison finds the output of an update outside the output limits, and where the integral
  -- gain counts, none finds the integral outside its own. So a NaN counts as inside.
  pub update-Between :
      (p : Pid Float) (setpoint measure : Float)
      → lt p.out_max p.out_min ≡ false
      → lt (i_limit fl p) (neg (i_limit fl p)) ≡ false
      → Between fl p.out_min p.out_max (update fl p setpoint measure).1
        × (integrates fl p ≡ true
            → Between fl
                (neg (i_limit fl p))
                (i_limit fl p)
                (update fl p setpoint measure).0.integral)
  unfolding update
  update-Between p setpoint measure ordered i_ordered = (
    limit-Between p.out_min p.out_max _ ordered,
    λ counts. rw counts (limit-Between (neg (i_limit fl p)) (i_limit fl p) _ i_ordered),
  )
