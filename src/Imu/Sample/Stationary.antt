-- ===== src/Imu/Sample/Stationary.antt =====
-- When the sensor counts as stationary.
use nuedc_control_freertos.Prelude.{
  ℕ, ◌+◌, Bool, List, [], ◌∷◌, ◌≡◌, refl, ap, ◌∙◌, arith, ltb, leb, Bool-cases, inl, inr,
  if◌then◌else◌,
}
use nuedc_control_freertos.Control.Floats.{Floats}
use nuedc_control_freertos.Imu.Device.{Icm45688, reset_attitude, quat_from_euler}
use nuedc_control_freertos.Imu.Attitude.{
  Vector, yaw_should_lock, apply_sample_lowpass, euler_from_quat, mahony_feedback, mahony_rates,
  mahony_rotate, mahony_turned, update_complementary_attitude, update_mahony_attitude,
}
use nuedc_control_freertos.Imu.Sample.{
  RawData, instant_stationary, hold_samples, update_stationary_state, update_auto_gyro_bias,
  shift_rates, raw_gyro, filter_sample, measure, update_attitude,
}

module _ (fl : Floats) where
  open fl use {Float}

  -- what the detection of rest keeps, which are the samples it wants, those it has and its answer,
  -- the scale of the yaw rate and the readiness
  abbrev pub rest : Icm45688 Float → ℕ × ℕ × Bool × Float × Bool
  rest dev = (
    dev.stationary_hold_samples, dev.stationary_sample_count, dev.stationary, dev.gyro_scale_z,
    dev.ready,
  )

  bias-rest :
      (dev : Icm45688 Float) (g : Vector Float) → rest (update_auto_gyro_bias fl dev g) ≡ rest dev
  unfolding update_auto_gyro_bias
  bias-rest dev g = ground arith

  shift-rest : (old dev : Icm45688 Float) → rest (shift_rates fl old dev) ≡ rest dev
  unfolding shift_rates
  shift-rest old dev = refl

  complementary-rest :
      (dev : Icm45688 Float) → rest (update_complementary_attitude fl dev) ≡ rest dev
  unfolding update_complementary_attitude
  complementary-rest dev = refl

  feedback-rest :
      (dev : Icm45688 Float) (g : Vector Float) → rest (mahony_feedback fl dev g).0 ≡ rest dev
  unfolding mahony_feedback
  feedback-rest dev g = ground arith

  rotate-rest : (dev : Icm45688 Float) (g : Vector Float) → rest (mahony_rotate fl dev g) ≡ rest dev
  unfolding mahony_rotate reset_attitude
  rotate-rest dev g = ground arith

  euler-rest : (dev : Icm45688 Float) → rest (euler_from_quat fl dev) ≡ rest dev
  unfolding euler_from_quat
  euler-rest dev = refl

  rates-rest : (dev : Icm45688 Float) → rest (mahony_rates fl dev).0 ≡ rest dev
  unfolding mahony_rates
  rates-rest dev = elim (Bool-cases (yaw_should_lock fl dev)) [
    | inl locked ↦ rw locked (feedback-rest dev _)
    | inr free ↦ rw free (feedback-rest dev _)
  ]

  turned-rest : (dev : Icm45688 Float) → rest (mahony_turned fl dev) ≡ rest dev
  unfolding mahony_turned
  turned-rest dev =
      let (fed, g) = mahony_rates fl dev in
      euler-rest (mahony_rotate fl fed g) ∙ rotate-rest fed g ∙ rates-rest dev

  mahony-rest : (dev : Icm45688 Float) → rest (update_mahony_attitude fl dev) ≡ rest dev
  unfolding update_mahony_attitude quat_from_euler
  mahony-rest dev = elim (Bool-cases (yaw_should_lock fl dev)) [
    | inl locked ↦ rw locked (turned-rest dev)
    | inr free ↦ rw free (turned-rest dev)
  ]

  lowpass-rest :
      (dev : Icm45688 Float) (a g : Vector Float)
      → rest (apply_sample_lowpass fl dev a g) ≡ rest dev
  unfolding apply_sample_lowpass
  lowpass-rest dev a g = ground arith

  filter-rest : (dev : Icm45688 Float) (raw : RawData) → rest (filter_sample fl dev raw) ≡ rest dev
  unfolding filter_sample
  filter-rest dev raw = lowpass-rest dev _ _

  attitude-rest : (dev : Icm45688 Float) → rest (update_attitude fl dev) ≡ rest dev
  unfolding update_attitude
  attitude-rest dev = ground (arith, mahony-rest dev, complementary-rest dev)

  -- one sample after another
  unfoldable pub samples : Icm45688 Float → List RawData → Icm45688 Float
  samples dev [] = dev
  samples dev (raw ∷ raws) = samples (update_attitude fl (measure fl dev raw)) raws

  -- how many of the last samples in a row were still
  unfoldable pub still_run : Icm45688 Float → List RawData → ℕ → ℕ
  still_run dev [] n = n
  still_run dev (raw ∷ raws) n =
      still_run (update_attitude fl (measure fl dev raw)) raws
        (if instant_stationary fl (filter_sample fl dev raw) then n + 1 else 0)

  -- the count is the run so far, up to the samples that are wanted
  abbrev IsCounted : Icm45688 Float → ℕ → Type 0
  IsCounted dev n =
      dev.stationary_sample_count ≡ (if ltb n (hold_samples fl dev) then n else hold_samples fl dev)

  step-rest :
      (dev : Icm45688 Float) (raw : RawData)
      → rest (update_attitude fl (measure fl dev raw))
        ≡ rest (update_stationary_state fl (filter_sample fl dev raw))
  unfolding measure
  step-rest dev raw =
      let still = update_stationary_state fl (filter_sample fl dev raw) in
      let learnt = update_auto_gyro_bias fl still (raw_gyro fl dev raw) in
      attitude-rest (shift_rates fl still learnt)
      ∙ shift-rest still learnt
      ∙ bias-rest still (raw_gyro fl dev raw)

  -- a sample leaves the scale of the yaw rate
  pub step-scale :
      (dev : Icm45688 Float) (raw : RawData)
      → (update_attitude fl (measure fl dev raw)).gyro_scale_z ≡ dev.gyro_scale_z
  unfolding update_stationary_state
  step-scale dev raw = ap (λ r. r.3) (step-rest dev raw) ∙ ap (λ r. r.3) (filter-rest dev raw)

  pub step-ready :
      (dev : Icm45688 Float) (raw : RawData)
      → (update_attitude fl (measure fl dev raw)).ready ≡ dev.ready
  unfolding update_stationary_state
  step-ready dev raw = ap (λ r. r.4) (step-rest dev raw) ∙ ap (λ r. r.4) (filter-rest dev raw)

  step-IsCounted :
      (dev : Icm45688 Float) (raw : RawData) (n : ℕ)
      → IsCounted dev n
      → let n' = if instant_stationary fl (filter_sample fl dev raw) then n + 1 else 0 in
        let dev' = update_attitude fl (measure fl dev raw) in
        IsCounted dev' n'
        × (dev'.stationary ≡ leb (hold_samples fl dev') n')
        × (hold_samples fl dev' ≡ hold_samples fl dev)
  unfolding update_stationary_state hold_samples
  step-IsCounted dev raw n h = ground (arith, step-rest dev raw, filter-rest dev raw)

  -- From a sensor whose count and answer are those of n still samples, the sensor counts as
  -- stationary after a list of samples exactly if at least as many of the last ones in a row were
  -- still as are wanted.
  pub samples-stationary :
      (dev : Icm45688 Float) (raws : List RawData) (n : ℕ)
      → IsCounted dev n
      → dev.stationary ≡ leb (hold_samples fl dev) n
      → (samples dev raws).stationary ≡ leb (hold_samples fl dev) (still_run dev raws n)
  unfolding samples still_run
  samples-stationary dev [] n h s = s
  samples-stationary dev (raw ∷ raws) n h s =
      let n' = if instant_stationary fl (filter_sample fl dev raw) then n + 1 else 0 in
      let dev' = update_attitude fl (measure fl dev raw) in
      let (counted, now, same) = step-IsCounted dev raw n h in
      samples-stationary dev' raws n' counted now ∙ ap (λ k. leb k (still_run dev' raws n')) same
