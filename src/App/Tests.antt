-- ===== src/App/Tests.antt =====
-- Examples of the control round: a car with its motors running that takes requests.
use nuedc_control_freertos.Prelude.{ℕ, true, false, Bool, [], ◌≡◌, refl, arith, ℤ, pos, negsuc}
use nuedc_control_freertos.Motor.Tests.{running, running-IsValid}
use nuedc_control_freertos.Encoder.{Pins}
use nuedc_control_freertos.Telemetry.Requests.{Requests}
use nuedc_control_freertos.Control.Chassis.{ControlChassis}
use nuedc_control_freertos.Control.Chassis.{set_debug_duty}
use nuedc_control_freertos.Control.Chassis.Tick.{Drives}
use nuedc_control_freertos.Control.Tests.{integers, at_rest, resting, debugged}
use nuedc_control_freertos.Platform.LineSensor as Drv
use nuedc_control_freertos.LineSensor
use nuedc_control_freertos.LineSensor.Tests.{dark}
use nuedc_control_freertos.Control.LineTracker
use nuedc_control_freertos.Control.LineTracker.Lost
use nuedc_control_freertos.App.Mission.{Inputs}
use nuedc_control_freertos.App.{AppState, idle, run, Car, control_round}
use nuedc_control_freertos.App.Round.{round-next_state, round-stopped, round-duty}

abbrev pins : Pins
pins = record { left_port = 1; left_a = 2; left_b = 1; right_port = 1; right_a = 8; right_b = 4 }

abbrev low : ℕ → ℕ → ℕ
low port n = 0

abbrev car : AppState → ControlChassis ℤ → Requests → Car ℤ
car s c r = record {
  ctx = record {
    state = s;
    state_id = 0;
    chassis = c;
    line_turn = pos 0;
    pitch_deg = pos 0;
    roll_deg = pos 0;
    yaw_deg = pos 0;
    gx_dps = pos 0;
    gy_dps = pos 0;
    gz_dps = pos 0;
    ax_g = pos 0;
    ay_g = pos 0;
    az_g = pos 0;
    imu_ready = true;
  };
  encoders = at_rest;
  board = running;
  requests = r;
  calls = [];
}

abbrev asks : Bool → Bool → Bool → Requests
asks start stop duty = record {
  start_request = start;
  stop_request = stop;
  duty_request_pending = duty;
  duty_request = record { left_pwm = pos 250; right_pwm = pos 4000; hold_ms = 500 };
}

-- a stop and a start in the same round: the car runs
round-next_state_example :
    (control_round integers pins low (pos 5) 60 (car idle resting (asks true true false))).ctx.state
    ≡ run
round-next_state_example =
    round-next_state integers pins low (pos 5) 60 (car idle resting (asks true true false))

-- a stop request while a debug duty is live: the motors get the debug duty
round-stopped_example :
    Drives 60
      (pos 200)
      (negsuc 299)
      (control_round integers pins low (pos 5) 60 (car idle debugged (asks false true false))).board
unfolding set_debug_duty
round-stopped_example =
    round-stopped integers pins low (pos 5) 60 (car idle debugged (asks false true false))
      running-IsValid refl refl

round-duty_example :
    ((control_round integers pins low
        (pos 5)
        60
        (car run resting (asks false false true))).ctx.state
      ≡ idle)
    × Drives 60
        (pos 250)
        (pos 4000)
        (control_round integers pins low (pos 5) 60 (car run resting (asks false false true))).board
round-duty_example =
    round-duty integers pins low (pos 5) 60 (car run resting (asks false false true))
      running-IsValid refl (omega arith) (omega arith)

-- rounds at the ticks 60 and 70 that see no line
abbrev blind : ℕ → Inputs
blind now = record { read_pins = low; values = dark; marks = dark; now = now }

abbrev rolling : Car ℤ
rolling = car run resting (asks false false false)
