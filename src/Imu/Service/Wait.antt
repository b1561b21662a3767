-- ===== src/Imu/Service/Wait.antt =====
-- The wait for a sample, which a clock that moves on brings to an end.
use nuedc_control_freertos.Prelude.{
  Option-cases, ℕ, zero, suc, ◌+◌, ◌≤◌, ◌<◌, true, false, ℤ, ◌≡◌, refl, arith, u32, sub_u32, leb,
  Bool-cases, inl, inr, Returns, ◌-◌, none, some,
}
use nuedc_control_freertos.Control.Floats.{Floats}
use nuedc_control_freertos.Imu.Sample.{get_data_ready}
use nuedc_control_freertos.Imu.Service.{
  ImuBoard, State, imu_error_timeout, heartbeat, look, wait_from,
}

-- the longest time, in ticks, that a call to the driver or a delay of one tick takes
abbrev pub longest : ℕ
longest = 1000000

-- The tick count is a clock that no call turns back and that a delay moves on.
pub record HasClock (hw : ImuBoard) (clock : hw.vendor.State → ℕ) : Type 0 where
  pub counted : (w : hw.vendor.State) → hw.ticks w ≡ u32 (clock w)
  pub asked : (w : hw.vendor.State) → clock w ≤ clock (hw.vendor.get_int_status w).0
  pub asked_bound : (w : hw.vendor.State) → clock (hw.vendor.get_int_status w).0 ≤ clock w + longest
  pub delayed : (w : hw.vendor.State) → clock w < clock (hw.delay 1 w)
  pub delayed_bound : (w : hw.vendor.State) → clock (hw.delay 1 w) ≤ clock w + longest

module _ (fl : Floats) (hw : ImuBoard) where
  -- the state after a heartbeat and a delay of one tick
  abbrev pub slept : State fl hw → State fl hw
  slept s = let beaten = heartbeat fl hw s in record beaten { world = hw.delay 1 beaten.world }

module _ (fl : Floats) (hw : ImuBoard) (clock : hw.vendor.State → ℕ) (h : HasClock hw clock) where
  abbrev time : State fl hw → ℕ
  time s = clock s.world

  -- a look that finds nothing
  look-time :
      (s : State fl hw)
      → (look fl hw s).1 ≡ none
      → (time s ≤ time (look fl hw s).0) × (time (look fl hw s).0 ≤ time s + longest)
  unfolding look get_data_ready
  look-time s e = ground (arith, h.asked s.world, h.asked_bound s.world)

  slept-time :
      (s : State fl hw)
      → (time s < time (slept fl hw s)) × (time (slept fl hw s) ≤ time s + longest)
  unfolding heartbeat
  slept-time s = (h.delayed s.world, h.delayed_bound s.world)

  wait_from-found :
      (fuel start timeout : ℕ) (s : State fl hw) (status : ℤ)
      → (look fl hw s).1 ≡ some status
      → wait_from fl hw (suc fuel) start timeout s ≡ some ((look fl hw s).0, status)
  unfolding wait_from
  wait_from-found fuel start timeout s status e = rw (wait_from, e) refl

  wait_from-over :
      (fuel start timeout : ℕ) (s : State fl hw)
      → (look fl hw s).1 ≡ none
      → leb timeout (sub_u32 (hw.ticks (look fl hw s).0.world) start) ≡ true
      → wait_from fl hw (suc fuel) start timeout s ≡ some ((look fl hw s).0, imu_error_timeout)
  unfolding wait_from
  wait_from-over fuel start timeout s e over = rw (wait_from, e, over) refl

  wait_from-next :
      (fuel start timeout : ℕ) (s : State fl hw)
      → (look fl hw s).1 ≡ none
      → leb timeout (sub_u32 (hw.ticks (look fl hw s).0.world) start) ≡ false
      → wait_from fl hw (suc fuel) start timeout s
        ≡ wait_from fl hw fuel start timeout (slept fl hw (look fl hw s).0)
  unfolding wait_from
  wait_from-next fuel start timeout s e under = rw (wait_from, e, under) refl

  -- `I` holds at every look of a wait and `Q` of the state and the status at its end.
  module _ (I : State fl hw → Type 0) (Q : State fl hw × ℤ → Type 0)
      (found : (s : State fl hw) (status : ℤ)
        → I s
        → (look fl hw s).1 ≡ some status
        → Q ((look fl hw s).0, status))
      (late : (s : State fl hw)
        → I s
        → (look fl hw s).1 ≡ none
        → Q ((look fl hw s).0, imu_error_timeout))
      (next : (s : State fl hw)
        → I s
        → (look fl hw s).1 ≡ none
        → I (slept fl hw (look fl hw s).0)) where
    -- A wait since the time `c` ends if the fuel covers what is left of the timeout.
    pub wait_from-Returns :
        (fuel c timeout : ℕ) (s : State fl hw)
        → c ≤ time s
        → time s ≤ c + timeout + longest
        → timeout ≤ longest
        → 1 ≤ fuel
        → timeout + c < fuel + time s
        → I s
        → Returns (wait_from fl hw fuel (u32 c) timeout s) Q
    wait_from-Returns zero c timeout s from to short some_fuel enough i = absurd (omega arith)
    wait_from-Returns (suc fuel) c timeout s from to short some_fuel enough i =
        elim (Option-cases (look fl hw s).1) [
          | inr (status, e) ↦
              rw (wait_from-found fuel (u32 c) timeout s status e) (found s status i e)
          | inl e ↦
              let (up, bound) = look-time s e in
              let looked = (look fl hw s).0 in
              let elapsed : sub_u32 (hw.ticks looked.world) (u32 c) ≡ time looked - c =
                rw (h.counted looked.world) (omega arith) in
              elim (Bool-cases (leb timeout (sub_u32 (hw.ticks looked.world) (u32 c)))) [
                | inl over ↦ rw (wait_from-over fuel (u32 c) timeout s e over) (late s i e)
                | inr under ↦
                    let before : time looked < c + timeout = ground (arith, elapsed, under) in
                    let (up', bound') = slept-time looked in
                    rw (wait_from-next fuel (u32 c) timeout s e under) (
                      wait_from-Returns fuel c timeout (slept fl hw looked) (omega arith)
                        (omega arith) short (omega arith) (omega arith) (next s i e))
              ]
        ]
