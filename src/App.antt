-- ===== src/App.antt =====
-- app: the state machine of the car (app_state.c, app_shared.c), the mission (app_mission.c) and the
-- round of the control task (app_tasks.c). A round is one step here: the requests it consumes are
-- those pending when it starts. The turn that the line tracker returns is an argument.
pub mod Round
pub mod Tasks
pub mod Start
pub mod Mission
pub mod Machine
pub mod Boot
mod Tests
use nuedc_control_freertos.Prelude.{
  ℕ, Bool, true, false, ◌&&◌, Option, none, some, ◌++◌, ℤ, pos, if◌then◌else◌,
}
use nuedc_control_freertos.Platform.Calls.{Trace}
use nuedc_control_freertos.Motor.Board.{Board}
use nuedc_control_freertos.Encoder.{Encoders, Pins}
use nuedc_control_freertos.Telemetry.Requests.{
  Requests, TelemetryDutyRequest, consume_start, consume_stop, consume_duty,
}
use nuedc_control_freertos.Control.Floats.{Floats}
use nuedc_control_freertos.Control.Chassis
use nuedc_control_freertos.Control.Chassis.{
  ControlChassis, set_target_speeds, set_debug_duty, drive,
}

pub data AppState : Type 0 where
  idle run fault : AppState

abbrev pub state_number : AppState → ℕ
state_number idle = 0
state_number run = 1
state_number fault = 2

abbrev pub is_run : AppState → Bool
is_run run = true
is_run _ = false

pub record AppContext (F : Type 0) : Type 0 where
  pub state : AppState
  pub state_id : ℕ
  pub chassis : ControlChassis F
  pub line_turn : F
  pub pitch_deg : F
  pub roll_deg : F
  pub yaw_deg : F
  pub gx_dps : F
  pub gy_dps : F
  pub gz_dps : F
  pub ax_g : F
  pub ay_g : F
  pub az_g : F
  pub imu_ready : Bool

-- The context and what the control task reaches through its calls: the encoders, the motors, the
-- requests of the command port, and the DriverLib calls made so far.
pub record Car (F : Type 0) : Type 0 where
  pub ctx : AppContext F
  pub encoders : Encoders
  pub board : Board
  pub requests : Requests
  pub calls : Trace

unfoldable pub shared_set_state : {F : Type 0} → AppContext F → AppState → AppContext F
shared_set_state ctx s = record ctx { state = s; state_id = state_number s }

-- `App_GetState`
unfoldable pub get_state : {F : Type 0} → AppContext F → AppState
get_state ctx = ctx.state

module _ (fl : Floats) where
  open fl use {Float, lit, add, sub, mul, div, neg, lt}

  abbrev zero_f : Float
  zero_f = lit 0 0

  -- drops the chassis' targets and stops both motors
  unfoldable pub halt : ℕ → Car Float → Car Float
  halt g_tick_ms k =
      let (b, t) = drive g_tick_ms k.board (pos 0) (pos 0) in
      record k {
        ctx = record k.ctx { chassis = set_target_speeds k.ctx.chassis zero_f zero_f };
        board = b;
        calls = k.calls ++ t;
      }

  unfoldable pub set_state : ℕ → Car Float → AppState → Car Float
  unfolding halt shared_set_state
  set_state g_tick_ms k s =
      let k' = record k { ctx = shared_set_state k.ctx s } in
      if is_run s then k' else halt g_tick_ms k'

  unfoldable pub init : ℕ → Car Float → Car Float
  init g_tick_ms k = set_state g_tick_ms k idle

  unfoldable pub tick_stop : ℕ → Car Float → Car Float
  unfolding set_state consume_stop
  tick_stop g_tick_ms k =
      let (r, stop) = consume_stop k.requests in
      let k' = record k { requests = r } in if stop then set_state g_tick_ms k' idle else k'

  unfoldable pub start_run : ℕ → Pins → (ℕ → ℕ → ℕ) → Car Float → Car Float
  start_run g_tick_ms pins read_pins k =
      let (c, e) =
        Chassis.reset_odometry fl pins read_pins k.ctx.chassis k.encoders
          (record { x = zero_f; y = zero_f; theta = zero_f }) in
      set_state g_tick_ms (record k { ctx = record k.ctx { chassis = c }; encoders = e }) run

  unfoldable pub tick_start : ℕ → Pins → (ℕ → ℕ → ℕ) → Car Float → Car Float
  unfolding start_run set_state consume_start
  tick_start g_tick_ms pins read_pins k =
      let (r, start) = consume_start k.requests in
      let k' = record k { requests = r } in
      if start && k'.ctx.imu_ready then start_run g_tick_ms pins read_pins k' else k'

  unfoldable pub debug : ℕ → ℕ → Car Float → TelemetryDutyRequest → Car Float
  debug g_tick_ms now_ms k d =
      let k' = set_state g_tick_ms k idle in
      record k' {
        ctx = record k'.ctx {
          chassis = set_debug_duty k'.ctx.chassis d.left_pwm d.right_pwm now_ms d.hold_ms;
        };
      }

  unfoldable pub tick_duty : ℕ → ℕ → Car Float → Car Float
  unfolding debug set_state consume_duty
  tick_duty g_tick_ms now_ms k =
      let (r, duty) = consume_duty k.requests in
      let k' = record k { requests = r } in
      elim duty [ none ↦ k' | some d ↦ debug g_tick_ms now_ms k' d ]

  unfoldable pub state_tick : ℕ → Pins → (ℕ → ℕ → ℕ) → ℕ → Car Float → Car Float
  unfolding tick_stop tick_start tick_duty
  state_tick g_tick_ms pins read_pins now_ms k =
      tick_duty g_tick_ms now_ms (tick_start g_tick_ms pins read_pins (tick_stop g_tick_ms k))

  unfoldable pub clampf_local : Float → Float → Float → Float
  clampf_local x lo hi = if lt x lo then lo else if lt hi x then hi else x

  -- `turn` is what `Control_LineTracker_Update` returns.
  unfoldable pub mission_tick : Float → AppContext Float → AppContext Float
  unfolding clampf_local
  mission_tick turn ctx =
      let base = lit 80 0 in
      let left_base = div (mul base (lit 7344 2)) (lit 7314 2) in
      let limit = lit 40 0 in
      let line_turn = clampf_local turn (neg limit) limit in
      if is_run ctx.state
      then record ctx {
        line_turn = line_turn;
        chassis = set_target_speeds ctx.chassis (sub left_base line_turn) (add base line_turn);
      }
      else record ctx { line_turn = zero_f; chassis = set_target_speeds ctx.chassis zero_f zero_f }

  -- One round of the control task, which first sets `g_tick_ms` to the time it read.
  unfoldable pub control_round : Pins → (ℕ → ℕ → ℕ) → Float → ℕ → Car Float → Car Float
  unfolding state_tick mission_tick
  control_round pins read_pins turn now k =
      let k' = state_tick now pins read_pins now k in
      let ctx = mission_tick turn k'.ctx in
      let (c, e, b, t) =
        Chassis.tick fl now ctx.chassis k'.encoders k'.board (is_run ctx.state) now in
      record k' { ctx = record ctx { chassis = c }; encoders = e; board = b; calls = k'.calls ++ t }
