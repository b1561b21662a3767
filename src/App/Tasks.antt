-- ===== src/App/Tasks.antt =====
-- app/app_tasks.c: the rounds of the fast and the control task, and what the other tasks change
-- between them, as steps in the order in which they happen.
use nuedc_control_freertos.Prelude.{ℕ, Bool, true, false, ◌&&◌, List, [], ◌∷◌, ◌++◌}
use nuedc_control_freertos.Motor.Board
use nuedc_control_freertos.Encoder.{Pins}
use nuedc_control_freertos.System.Health
use nuedc_control_freertos.System.Health.{Health, task_fast_io, task_control}
use nuedc_control_freertos.Telemetry.Requests.{Requests}
use nuedc_control_freertos.Control.Floats.{Floats}
use nuedc_control_freertos.Control.Chassis.{poll_fast_inputs}
use nuedc_control_freertos.Imu.Sample.{is_ok}
use nuedc_control_freertos.Imu.Service.{ImuSnapshot, ImuState, ready}
use nuedc_control_freertos.App.{Car, AppContext, control_round}

pub record Firmware (F : Type 0) : Type 0 where
  pub car : Car F
  pub snapshot : ImuSnapshot F
  pub health : Health

abbrev pub is_ready : ImuState → Bool
is_ready ready = true
is_ready _ = false

unfoldable pub snapshot_ready : {F : Type 0} → ImuSnapshot F → Bool
snapshot_ready snapshot = snapshot.ready && (is_ready snapshot.state && is_ok snapshot.status)

-- what happens: a round of a task at a tick, with the pins that it reads and the turn to the line, a
-- new state of the requests, a snapshot of the sensor
pub data Step (F : Type 0) : Type 0 where
  fast : (ℕ → ℕ → ℕ) → ℕ → Step F
  control : (ℕ → ℕ → ℕ) → F → ℕ → Step F
  requests : Requests → Step F
  published : ImuSnapshot F → Step F

module _ (fl : Floats) (pins : Pins) where
  unfoldable pub copy_imu_snapshot : Firmware fl.Float → AppContext fl.Float → AppContext fl.Float
  unfolding snapshot_ready
  copy_imu_snapshot f ctx = record ctx {
    pitch_deg = f.snapshot.pitch_deg;
    roll_deg = f.snapshot.roll_deg;
    yaw_deg = f.snapshot.yaw_deg;
    gx_dps = f.snapshot.gyro_dps.x;
    gy_dps = f.snapshot.gyro_dps.y;
    gz_dps = f.snapshot.gyro_dps.z;
    ax_g = f.snapshot.accel_g.x;
    ay_g = f.snapshot.accel_g.y;
    az_g = f.snapshot.accel_g.z;
    imu_ready = snapshot_ready f.snapshot;
  }

  unfoldable pub fast_round : (ℕ → ℕ → ℕ) → ℕ → Firmware fl.Float → Firmware fl.Float
  fast_round read_pins now f =
      let encoders = poll_fast_inputs fl pins read_pins f.car.encoders in
      let (board, calls) = Board.safety_tick f.car.board now in
      record f {
        car = record f.car {
          ctx = copy_imu_snapshot f f.car.ctx;
          encoders = encoders;
          board = board;
          calls = f.car.calls ++ calls;
        };
        health = Health.beat f.health task_fast_io now;
      }

  unfoldable pub control_task_round :
      (ℕ → ℕ → ℕ) → fl.Float → ℕ → Firmware fl.Float → Firmware fl.Float
  control_task_round read_pins turn now f = record f {
    car = control_round fl pins read_pins turn now f.car;
    health = Health.beat f.health task_control now;
  }

  unfoldable pub step : Firmware fl.Float → Step fl.Float → Firmware fl.Float
  step f (fast read_pins now) = fast_round read_pins now f
  step f (control read_pins turn now) = control_task_round read_pins turn now f
  step f (requests r) = record f { car = record f.car { requests = r } }
  step f (published snapshot) = record f { snapshot = snapshot }

  unfoldable pub run_steps : Firmware fl.Float → List (Step fl.Float) → Firmware fl.Float
  run_steps f [] = f
  run_steps f (s ∷ ss) = run_steps (step f s) ss
