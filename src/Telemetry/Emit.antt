-- ===== src/Telemetry/Emit.antt =====
-- modules/telemetry/telemetry.c: the lines that the telemetry task emits. A bound pointer is what it
-- reads in a state `W` of the memory behind it, a null pointer is `none`, and a line is the values
-- that its format string prints; the text that `vsnprintf` makes of them is an argument.
pub mod Schedule
pub mod Output
use nuedc_control_freertos.Prelude.{
  ℕ, Bool, true, false, ◌&&◌, ◌||◌, not, Option, none, some, ◌>>=◌, List, [], ◌∷◌, ◌++◌, take, ltb,
  ◌==◌, sub_u32, if◌then◌else◌,
}
use nuedc_control_freertos.Platform.Uart.{UartDevice, DrvUartPort}
use nuedc_control_freertos.Control.Floats.{Floats}
use nuedc_control_freertos.Telemetry.Command.{Port}
use nuedc_control_freertos.Telemetry.Uart.{DebugUart, printf}

pub data Line (F : Type 0) : Type 0 where
  -- `$S`: the time, the state, x, y, theta in degrees, the two targets, the two speeds and the turn
  chassis_line : ℕ → ℕ → F → F → F → F → F → F → F → F → Line F
  -- `$L`: the time, the bias, the contrast, the strength, on the line, and 7 or 8 values
  sensor_line : ℕ → F → ℕ → ℕ → Bool → List ℕ → Line F
  -- `$I`: the time, the three angles, the three rates, the three accelerations, ready
  imu_line : ℕ → F → F → F → F → F → F → F → F → F → Bool → Line F

pub record TelemetryChassisBind (W F : Type 0) : Type 0 where
  pub state : Option (W → ℕ)
  pub x_cm : Option (W → F)
  pub y_cm : Option (W → F)
  pub theta_rad : Option (W → F)
  pub target_l : Option (W → F)
  pub target_r : Option (W → F)
  pub meas_l : Option (W → F)
  pub meas_r : Option (W → F)
  pub line_turn : Option (W → F)
  pub valid : Bool

pub record TelemetryLineBind (W F : Type 0) : Type 0 where
  pub raw : Option (W → List ℕ)
  pub raw_count : ℕ
  pub contrast : Option (W → ℕ)
  pub strength : Option (W → ℕ)
  pub bias : Option (W → F)
  pub on_line : Option (W → Bool)
  pub valid : Bool

pub record TelemetryImuBind (W F : Type 0) : Type 0 where
  pub pitch_deg : Option (W → F)
  pub roll_deg : Option (W → F)
  pub yaw_deg : Option (W → F)
  pub gx_dps : Option (W → F)
  pub gy_dps : Option (W → F)
  pub gz_dps : Option (W → F)
  pub ax_g : Option (W → F)
  pub ay_g : Option (W → F)
  pub az_g : Option (W → F)
  pub ready : Option (W → Bool)
  pub valid : Bool

pub record Emitter (W F : Type 0) : Type 0 where
  pub chassis : TelemetryChassisBind W F
  pub line : TelemetryLineBind W F
  pub imu : TelemetryImuBind W F
  pub last_emit_ms : ℕ
  pub emit_primed : Bool

abbrev pub present : {A : Type 0} → Option A → Bool
present none = false
present (some _) = true

unfoldable pub bind_chassis :
    {W F : Type 0}
    → Option (W → ℕ)
    → (x_cm y_cm theta_rad target_l target_r meas_l meas_r line_turn : Option (W → F)) → Emitter W F
    → Emitter W F
bind_chassis state x_cm y_cm theta_rad target_l target_r meas_l meas_r line_turn e = record e {
  chassis = record {
    state = state;
    x_cm = x_cm;
    y_cm = y_cm;
    theta_rad = theta_rad;
    target_l = target_l;
    target_r = target_r;
    meas_l = meas_l;
    meas_r = meas_r;
    line_turn = line_turn;
    valid =
        present state
        && present x_cm
        && present y_cm
        && present theta_rad
        && present target_l
        && present target_r
        && present meas_l
        && present meas_r
        && present line_turn;
  };
}

unfoldable pub bind_line :
    {W F : Type 0}
    → Option (W → List ℕ)
    → ℕ
    → (contrast strength : Option (W → ℕ)) → Option (W → F)
    → Option (W → Bool)
    → Emitter W F
    → Emitter W F
bind_line raw raw_count contrast strength bias on_line e = record e {
  line = record {
    raw = raw;
    raw_count = raw_count;
    contrast = contrast;
    strength = strength;
    bias = bias;
    on_line = on_line;
    valid =
        present raw
        && ltb 0 raw_count
        && present contrast
        && present strength
        && present bias
        && present on_line;
  };
}

unfoldable pub bind_imu :
    {W F : Type 0}
    → (pitch_deg roll_deg yaw_deg gx_dps gy_dps gz_dps ax_g ay_g az_g : Option (W → F))
    → Option (W → Bool)
    → Emitter W F
    → Emitter W F
bind_imu pitch_deg roll_deg yaw_deg gx_dps gy_dps gz_dps ax_g ay_g az_g ready e = record e {
  imu = record {
    pitch_deg = pitch_deg;
    roll_deg = roll_deg;
    yaw_deg = yaw_deg;
    gx_dps = gx_dps;
    gy_dps = gy_dps;
    gz_dps = gz_dps;
    ax_g = ax_g;
    ay_g = ay_g;
    az_g = az_g;
    ready = ready;
    valid =
        present pitch_deg
        && present roll_deg
        && present yaw_deg
        && present gx_dps
        && present gy_dps
        && present gz_dps
        && present ax_g
        && present ay_g
        && present az_g
        && present ready;
  };
}

-- What stands behind a pointer, put to use. A null pointer ends the emission: none is read where
-- `valid` is set.
abbrev read : {W A B : Type 0} → Option (W → A) → W → (A → List B) → List B
read none w f = []
read (some p) w f = f (p w)

abbrev pub deg_per_rad : (fl : Floats) → fl.Float
deg_per_rad fl = fl.lit 572957795 7

module _ (fl : Floats) {W : Type 0} where
  open fl use {Float, mul}

  unfoldable pub emit_chassis : Emitter W Float → ℕ → W → List (Line Float)
  emit_chassis e ts_ms w =
      let b = e.chassis in
      let lines : List (Line Float) = read b.state w λ state. read b.x_cm w λ x. read b.y_cm w λ y.
        read b.theta_rad w λ theta. read b.target_l w λ tl. read b.target_r w λ tr.
          read b.meas_l w λ ml. read b.meas_r w λ mr. read b.line_turn w λ turn.
            chassis_line ts_ms state x y (mul theta (deg_per_rad fl)) tl tr ml mr turn ∷ [] in
      if not b.valid then [] else lines

  unfoldable pub emit_line : Emitter W Float → ℕ → W → List (Line Float)
  emit_line e ts_ms w =
      let b = e.line in
      let lines : List (Line Float) = read b.bias w λ bias. read b.contrast w λ contrast.
        read b.strength w λ strength. read b.on_line w λ on_line. read b.raw w λ raw.
          sensor_line ts_ms bias contrast strength on_line
            (take (if ltb b.raw_count 8 then 7 else 8) raw)
          ∷ [] in
      if not b.valid || ltb b.raw_count 7 then [] else lines

  unfoldable pub emit_imu : Emitter W Float → ℕ → W → List (Line Float)
  emit_imu e ts_ms w =
      let b = e.imu in
      let lines : List (Line Float) = read b.pitch_deg w λ pitch. read b.roll_deg w λ roll.
        read b.yaw_deg w λ yaw. read b.gx_dps w λ gx. read b.gy_dps w λ gy. read b.gz_dps w λ gz.
          read b.ax_g w λ ax. read b.ay_g w λ ay. read b.az_g w λ az.
            read b.ready w λ ready. imu_line ts_ms pitch roll yaw gx gy gz ax ay az ready ∷ [] in
      if not b.valid then [] else lines

  -- the lines of a tick that emits
  unfoldable pub emit : Emitter W Float → Port → ℕ → W → List (Line Float)
  unfolding emit_chassis emit_line emit_imu
  emit e p ts_ms w =
      let shown = emit_chassis e ts_ms w in
      let seen = if p.raw_line_enabled then emit_line e ts_ms w else [] in
      let felt = if p.raw_imu_enabled then emit_imu e ts_ms w else [] in
      (if p.enabled then shown ++ seen else []) ++ felt

  -- `Telemetry_Tick`, with the lines that it prints
  unfoldable pub tick : Emitter W Float → Port → ℕ → W → Emitter W Float × List (Line Float)
  tick e p ts_ms w =
      let lines = emit e p ts_ms w in
      let marked = record e { last_emit_ms = ts_ms } in
      if not p.enabled && not p.raw_imu_enabled
      then (e, [])
      else if not e.emit_primed
      then (record marked { emit_primed = true }, lines)
      else if ltb (sub_u32 ts_ms e.last_emit_ms) p.period_ms
      then (e, [])
      else (marked, lines)

module _ {L S : Type 0} (dev : UartDevice) (uart : DrvUartPort) where
  -- Calls of `BSP_Uart_Printf`: each by its text and what stands in memory behind the buffer.
  unfoldable pub print : ℕ → (L → List ℕ × List ℕ) → List L → DebugUart S → Option (DebugUart S)
  print fuel texts [] u = some u
  print fuel texts (l ∷ ls) u = do
    u' ← printf dev uart fuel u (texts l).0 (texts l).1
    print fuel texts ls u'
