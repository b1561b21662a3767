-- ===== src/Imu/Transport/Sleep.antt =====
-- How long the transport sleeps.
use nuedc_control_freertos.Prelude.{
  ℕ, zero, suc, ◌+◌, ◌-◌, ◌*◌, ◌^◌, ◌≤◌, ◌<◌, [], ◌∷◌, ◌≡◌, refl, ap, ◌∙◌, arith, ltb, u32,
  Bool-cases, inl, inr,
}
use native.Mathlib.Nat.{mul-add, mul-zero, mul-le-mul}
use nuedc_control_freertos.Platform.Spi.{History, delay_cycles}
use nuedc_control_freertos.Imu.Transport.{cycles_per_us, sleep_ms, icm_sleep_us}

-- the cycles that the delays of a history take
abbrev pub total : History → ℕ
total [] = 0
total (delay_cycles n ∷ h) = n + total h
total (_ ∷ h) = total h

cycles-bound : (cpu_hz : ℕ) → cpu_hz < 2 ^ 32 → cycles_per_us cpu_hz < 4295
unfolding cycles_per_us
cycles-bound cpu_hz small = ground arith

split_ms : (cycles us : ℕ) → 1000 < us → cycles * us ≡ cycles * 1000 + cycles * (us - 1000)
split_ms cycles us more =
    let whole : us ≡ 1000 + (us - 1000) = omega arith in
    ap (λ n. cycles * n) whole ∙ mul-add cycles 1000 (us - 1000)

sleep_ms-total :
    (cycles fuel us : ℕ) (h : History)
    → cycles < 4295
    → let (left, h') = sleep_ms cycles fuel us h in total h' + cycles * left ≡ total h + cycles * us
unfolding sleep_ms
sleep_ms-total cycles zero us h small = refl
sleep_ms-total cycles (suc fuel) us h small = elim (Bool-cases (ltb 1000 us)) [
  | inl more ↦
      let step =
        sleep_ms-total cycles fuel (us - 1000) (delay_cycles (u32 (cycles * 1000)) ∷ h) small in
      rw more (omega (arith, step, split_ms cycles us (ground arith), small))
  | inr done ↦ rw done refl
]

sleep_ms-left :
    (cycles fuel us : ℕ) (h : History) → us ≤ 1000 * fuel → (sleep_ms cycles fuel us h).0 ≤ 1000
unfolding sleep_ms
sleep_ms-left cycles zero us h enough = ground arith
sleep_ms-left cycles (suc fuel) us h enough =
    ground (arith, sleep_ms-left cycles fuel (us - 1000) (delay_cycles (u32 (cycles * 1000)) ∷ h))

-- A sleep of so many microseconds delays for exactly as many times the cycles of a microsecond, on a
-- clock that fits 32 bits, and what its loop leaves for the last delay is at most a millisecond.
pub sleep-total :
    (cpu_hz us : ℕ) (h : History)
    → cpu_hz < 2 ^ 32
    → (total (icm_sleep_us cpu_hz us h) ≡ total h + cycles_per_us cpu_hz * us)
      × ((sleep_ms (cycles_per_us cpu_hz) us us h).0 ≤ 1000)
unfolding icm_sleep_us
sleep-total cpu_hz us h small =
    let cycles = cycles_per_us cpu_hz in
    let (left, h') = sleep_ms cycles us us h in
    let few = cycles-bound cpu_hz small in
    let short : left ≤ 1000 = sleep_ms-left cycles us us h (omega arith) in
    let fits : cycles * left ≤ 4294 * 1000 = mul-le-mul {n₂ = 4294} (omega arith) short in
    (ground (arith, sleep_ms-total cycles us us h few, mul-zero cycles), short)
