-- ===== src/Telemetry/Emit/Schedule.antt =====
-- When lines are emitted.
use nuedc_control_freertos.Prelude.{
  ℕ, ◌+◌, ◌≤◌, ◌<◌, ◌^◌, Bool, true, false, not, ◌||◌, Option, none, some, List, [], ◌∷◌, leb, ltb,
  u32, sub_u32, if◌then◌else◌, ◌≡◌, refl, ap, ◌∙◌, arith, ◌-◌, Bool-cases, inl, inr,
}
use nuedc_control_freertos.Control.Floats.{Floats}
use nuedc_control_freertos.Telemetry.Command.{Port}
use nuedc_control_freertos.Telemetry.Emit.{
  Emitter, Line, emit_chassis, emit_line, emit_imu, emit, tick,
}

-- A tick: the milliseconds since the start, which do not wrap, the settings of the port and the
-- memory behind the bound pointers.
pub record Moment (W : Type 0) : Type 0 where
  pub time : ℕ
  pub port : Port
  pub memory : W

-- nothing has been emitted yet, or the port's period has passed since
abbrev pub is_due : {W : Type 0} → Option ℕ → Moment W → Bool
is_due none m = true
is_due (some last) m = leb (last + m.port.period_ms) m.time

abbrev pub is_open : Port → Bool
is_open p = p.enabled || p.raw_imu_enabled

-- The port is open and its period a word of 16 bits; ticks come in order, and none waits for 2 ^ 32
-- ms less the longest period.
abbrev pub AreTimely : {W : Type 0} → ℕ → List (Moment W) → Type 0
AreTimely before [] = Unit
AreTimely before (m ∷ ms) =
    (before ≤ m.time)
    × (m.time + 65536 ≤ before + 2 ^ 32)
    × (m.port.period_ms < 65536)
    × (is_open m.port ≡ true)
    × AreTimely m.time ms

-- what an emitter remembers of the last emission
abbrev Follows : Bool → ℕ → Option ℕ → ℕ → Type 0
Follows primed mark none before = primed ≡ false
Follows primed mark (some last) before =
    (primed ≡ true) × (mark ≡ u32 last) × (last ≤ before) × (before < last + 65536)

passed :
    (last before time : ℕ)
    → last ≤ before
    → before < last + 65536
    → before ≤ time
    → time + 65536 ≤ before + 2 ^ 32
    → sub_u32 (u32 time) (u32 last) ≡ time - last
passed last before time kept near later soon = omega arith

module _ (fl : Floats) {W : Type 0} where
  -- the emitter run over the 32-bit times
  unfoldable pub run : Emitter W fl.Float → List (Moment W) → List (List (Line fl.Float))
  run e [] = []
  run e (m ∷ ms) = let (e', lines) = tick fl e m.port (u32 m.time) m.memory in lines ∷ run e' ms

  -- what is emitted when, on a clock that does not wrap
  unfoldable pub schedule :
      Emitter W fl.Float → Option ℕ → List (Moment W) → List (List (Line fl.Float))
  schedule e last [] = []
  schedule e last (m ∷ ms) =
      let lines = emit fl e m.port (u32 m.time) m.memory in
      let now = schedule e (some m.time) ms in
      let later = schedule e last ms in if is_due last m then lines ∷ now else [] ∷ later

  emit-marked :
      (e : Emitter W fl.Float) (mark : ℕ) (primed : Bool) (p : Port) (ts : ℕ) (w : W)
      → emit fl (record e { last_emit_ms = mark; emit_primed = primed }) p ts w ≡ emit fl e p ts w
  unfolding emit emit_chassis emit_line emit_imu
  emit-marked e mark primed p ts w = refl

  tick-emits :
      (e : Emitter W fl.Float) (mark : ℕ) (primed : Bool) (p : Port) (ts : ℕ) (w : W)
      → is_open p ≡ true
      → (not primed || not (ltb (sub_u32 ts mark) p.period_ms)) ≡ true
      → tick fl (record e { last_emit_ms = mark; emit_primed = primed }) p ts w
        ≡ (record e { last_emit_ms = ts; emit_primed = true }, emit fl e p ts w)
  unfolding tick
  tick-emits e mark primed p ts w opened due = ground (arith, emit-marked e mark primed p ts w)

  tick-waits :
      (e : Emitter W fl.Float) (mark : ℕ) (p : Port) (ts : ℕ) (w : W)
      → ltb (sub_u32 ts mark) p.period_ms ≡ true
      → tick fl (record e { last_emit_ms = mark; emit_primed = true }) p ts w
        ≡ (record e { last_emit_ms = mark; emit_primed = true }, [])
  unfolding tick
  tick-waits e mark p ts w early = ground arith

  run-schedule_from :
      (ms : List (Moment W)) (e : Emitter W fl.Float) (mark : ℕ) (primed : Bool) (last : Option ℕ)
      (before : ℕ)
      → Follows primed mark last before
      → AreTimely before ms
      → run (record e { last_emit_ms = mark; emit_primed = primed }) ms ≡ schedule e last ms
  unfolding run schedule tick
  run-schedule_from [] e mark primed last before f timely = refl
  run-schedule_from (m ∷ ms) e mark primed none before f (later, soon, short, opened, timely) =
      let rest =
        run-schedule_from ms e (u32 m.time) true (some m.time) m.time
          (refl, refl, omega arith, omega arith) timely in
      ap (λ r. r.1 ∷ run r.0 ms)
        (tick-emits e mark primed m.port (u32 m.time) m.memory opened (ground arith))
      ∙ ap (λ rs. emit fl e m.port (u32 m.time) m.memory ∷ rs) rest
  run-schedule_from (m ∷ ms) e mark primed (some last) before (on, same, kept, near)
        (later, soon, short, opened, timely) =
      let gone = passed last before m.time kept near later soon in
      elim (Bool-cases (leb (last + m.port.period_ms) m.time)) [
        | inl due ↦
            let rest =
              run-schedule_from ms e (u32 m.time) true (some m.time) m.time
                (refl, refl, omega arith, omega arith) timely in
            rw due (
              ap (λ r. r.1 ∷ run r.0 ms)
                (tick-emits e mark primed m.port (u32 m.time) m.memory opened
                  (ground (arith, gone)))
              ∙ ap (λ rs. emit fl e m.port (u32 m.time) m.memory ∷ rs) rest)
        | inr early ↦
            let rest =
              run-schedule_from ms e mark true (some last) m.time
                (refl, same, omega arith, ground arith) timely in
            rw (early, on)
              (ap (λ r. r.1 ∷ run r.0 ms)
                  (tick-waits e mark m.port (u32 m.time) m.memory (ground (arith, gone)))
                ∙ ap (λ rs. [] ∷ rs) rest)
      ]

  -- From an emitter that has not emitted yet, with the port open and ticks less than 2 ^ 32 ms minus
  -- the longest period apart, lines are emitted exactly when the schedule says on a clock that does
  -- not wrap: at the first tick, and then at each tick that comes a period or more after the last
  -- emission.
  pub run-schedule :
      (e : Emitter W fl.Float) (ms : List (Moment W)) (before : ℕ)
      → e.emit_primed ≡ false
      → AreTimely before ms
      → run e ms ≡ schedule e none ms
  run-schedule e ms before fresh timely =
      run-schedule_from ms e e.last_emit_ms e.emit_primed none before fresh timely
