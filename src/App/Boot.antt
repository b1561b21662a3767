-- ===== src/App/Boot.antt =====
-- The start of the firmware: main.c, app_main.c and the creation of the tasks in app_tasks.c. The pins,
-- ports and timers come from SysConfig, whose `SYSCFG_DL_init` sets the hardware up, and the results
-- of `xTaskCreateStatic` and of the scheduler come from FreeRTOS: they are arguments.
pub mod Held
pub mod Unfed
pub mod WellFormed
mod Tests
use nuedc_control_freertos.Prelude.{
  ℕ, Bool, true, false, ◌&&◌, Option, none, some, List, [], ◌++◌, pos, if◌then◌else◌, length,
}
use nuedc_control_freertos.Platform.PinMap.{LinePins}
use nuedc_control_freertos.Platform.Wiring.{
  left_motor_config, right_motor_config, encoder_pins, line_channels,
}
use nuedc_control_freertos.Platform.QuadEncoder.{DrvQuadEncoder}
use nuedc_control_freertos.Motor.Board
use nuedc_control_freertos.Encoder.{Encoders}
use nuedc_control_freertos.System.Fault
use nuedc_control_freertos.System.Fault.{SystemFaultCode, heap_fault, stack_fault}
use nuedc_control_freertos.System.Health
use nuedc_control_freertos.System.Monitor.{watchdog_init, raise}
use nuedc_control_freertos.Telemetry.Command.{Port, Reply, imu_cal_none, on_rx_byte}
use nuedc_control_freertos.Telemetry.Emit.{Emitter, bind_chassis, bind_line, bind_imu}
use nuedc_control_freertos.Telemetry.RttLog.{static_up}
use nuedc_control_freertos.Telemetry.Uart
use nuedc_control_freertos.Telemetry.Uart.{DebugUart, set_rx_callback}
use nuedc_control_freertos.Control.Floats.{Floats}
use nuedc_control_freertos.Control.Pid
use nuedc_control_freertos.Control.Chassis
use nuedc_control_freertos.Control.Chassis.{ControlChassis, ControlChassisConfig}
use nuedc_control_freertos.Control.LineTracker
use nuedc_control_freertos.LineSensor
use nuedc_control_freertos.LineSensor.{DevLineSensor}
use nuedc_control_freertos.Imu.Service.{ImuBoard, Service}
use nuedc_control_freertos.Imu.Service.Task
use nuedc_control_freertos.App
use nuedc_control_freertos.App.{AppContext, AppState, idle, fault, set_state}
use nuedc_control_freertos.App.Machine.{
  Machine, Memory, Environment, Whole, on_byte, car, put_car, monitor, put_monitor,
}

-- the five tasks, in the order in which they are created
pub data TaskName : Type 0 where
  health_name imu_name fast_name control_name telemetry_name : TaskName

-- what the pins read, the line sensor's pins, and the memory of the sensor's service before the start
pub record Setup (F S : Type 0) : Type 0 where
  pub read_pins : ℕ → ℕ → ℕ
  pub line_pins : LinePins
  pub service : Service F S

-- the static memory of the motors' encoders, all zeros
abbrev pub zero_encoder : DrvQuadEncoder
zero_encoder = record {
  config = record {
    phase_a = record { port = 0; pin = 0; active_low = false };
    phase_b = record { port = 0; pin = 0; active_low = false };
    direction = pos 0;
  };
  last_state = 0;
  delta = pos 0;
  total = pos 0;
}

-- the debug UART at reset, with the log of rtt_log.c
unfoldable pub static_uart : DebugUart (Port × List Reply)
static_uart = record { log = static_up; history = []; callback = none }

-- the static variables of telemetry.c at reset
abbrev pub static_port : Port
static_port = record {
  requests = record {
    start_request = false;
    stop_request = false;
    duty_request_pending = false;
    duty_request = record { left_pwm = pos 0; right_pwm = pos 0; hold_ms = 0 };
  };
  imu_cal_request = imu_cal_none;
  period_ms = 10;
  enabled = true;
  raw_line_enabled = false;
  raw_imu_enabled = false;
  cmd_line = [];
}

abbrev pub static_emitter : {W F : Type 0} → Emitter W F
static_emitter = record {
  chassis = record {
    state = none;
    x_cm = none;
    y_cm = none;
    theta_rad = none;
    target_l = none;
    target_r = none;
    meas_l = none;
    meas_r = none;
    line_turn = none;
    valid = false;
  };
  line = record {
    raw = none;
    raw_count = 0;
    contrast = none;
    strength = none;
    bias = none;
    on_line = none;
    valid = false;
  };
  imu = record {
    pitch_deg = none;
    roll_deg = none;
    yaw_deg = none;
    gx_dps = none;
    gy_dps = none;
    gz_dps = none;
    ax_g = none;
    ay_g = none;
    az_g = none;
    ready = none;
    valid = false;
  };
  last_emit_ms = 0;
  emit_primed = false;
}

-- the pointers that `App_Init` binds
unfoldable pub bind_all : {F : Type 0} → ℕ → Emitter (Memory F) F → Emitter (Memory F) F
bind_all ccd_count e =
    let shown =
      bind_chassis (some (λ w. w.0.state_id)) (some (λ w. w.0.chassis.pose.x))
        (some (λ w. w.0.chassis.pose.y)) (some (λ w. w.0.chassis.pose.theta))
        (some (λ w. w.0.chassis.target_speed_left)) (some (λ w. w.0.chassis.target_speed_right))
        (some (λ w. w.0.chassis.measured_speed_left)) (some (λ w. w.0.chassis.measured_speed_right))
        (some (λ w. w.0.line_turn)) e in
    let seen =
      bind_line (some (λ w. w.1.raw)) ccd_count (some (λ w. w.1.contrast))
        (some (λ w. w.1.strength)) (some (λ w. w.1.bias)) (some (λ w. w.1.on_line)) shown in
    bind_imu (some (λ w. w.0.pitch_deg)) (some (λ w. w.0.roll_deg)) (some (λ w. w.0.yaw_deg))
      (some (λ w. w.0.gx_dps)) (some (λ w. w.0.gy_dps)) (some (λ w. w.0.gz_dps))
      (some (λ w. w.0.ax_g)) (some (λ w. w.0.ay_g)) (some (λ w. w.0.az_g))
      (some (λ w. w.0.imu_ready)) seen

-- `create_tasks`, by what `xTaskCreateStatic` gives for each task
unfoldable pub create_tasks : (TaskName → Bool) → Bool
create_tasks created =
    created health_name
    && created imu_name
    && created fast_name
    && created control_name
    && created telemetry_name

module _ (fl : Floats) (hw : ImuBoard) (e : Environment fl.Float) where
  open fl use {Float, lit, neg}

  abbrev zero_f : Float
  zero_f = lit 0 0

  abbrev pub k_chassis_config : ControlChassisConfig Float
  k_chassis_config = record {
    left_pulses_per_cm = lit 7344 2;
    right_pulses_per_cm = lit 7314 2;
    wheel_base_cm = lit 135 1;
    open_loop_cm_per_pwm_ms = lit 22 5;
    speed_out_limit = lit 10000 1;
    forward_min_pulse = lit 3 2;
  }

  -- the static context at reset, with its chassis set up
  abbrev pub first_context : ControlChassis Float → AppContext Float
  first_context chassis = record {
    state = idle;
    state_id = 0;
    chassis = chassis;
    line_turn = zero_f;
    pitch_deg = zero_f;
    roll_deg = zero_f;
    yaw_deg = zero_f;
    gx_dps = zero_f;
    gy_dps = zero_f;
    gz_dps = zero_f;
    ax_g = zero_f;
    ay_g = zero_f;
    az_g = zero_f;
    imu_ready = false;
  }

  -- `App_Tasks_Start`
  unfoldable pub start_tasks : (TaskName → Bool) → Whole fl hw e → Whole fl hw e
  start_tasks created m =
      let m' = put_monitor m (raise m.g_tick_ms (monitor m) heap_fault 0) in
      if create_tasks created then m else put_car m' (set_state fl m.g_tick_ms (car m') fault)

  -- `App_Init` up to `App_State_Init`, after `System_Watchdog_Init`
  unfoldable pub prepare : Setup Float hw.vendor.State → Whole fl hw e
  prepare s =
      let channels = line_channels s.line_pins in
      let (board, calls) =
        Board.init s.read_pins zero_encoder (left_motor_config e.pin_map)
          (right_motor_config e.pin_map) in
      let uart = Uart.init e.dev e.uart static_uart in
      let sensor = LineSensor.board_init fl channels in
      let service = Task.init fl hw s.service in
      let (chassis, encoders) =
        Chassis.init fl (encoder_pins e.pin_map) s.read_pins (some k_chassis_config) (lit 180 1)
          zero_f zero_f in
      let pid = Pid.init fl (lit 18 2) zero_f (lit 2 2) (neg (lit 400 1)) (lit 400 1) in
      record {
        g_tick_ms = 0;
        ctx = first_context chassis;
        encoders = encoders;
        board = board;
        calls = watchdog_init ++ calls;
        tracker = LineTracker.init fl (some pid) sensor;
        port = static_port;
        emitter = bind_all (length channels) static_emitter;
        uart = set_rx_callback e.dev e.uart uart (some (on_byte fl hw e));
        sensor = record service { health = Health.init 0 };
        faults = Fault.init;
      }

  -- `main` up to the scheduler
  unfoldable pub boot : (TaskName → Bool) → Setup Float hw.vendor.State → Whole fl hw e
  boot created s =
      let m = prepare s in start_tasks created (put_car m (App.init fl m.g_tick_ms (car m)))

  -- `main` once the scheduler has returned, which stops both motors
  unfoldable pub scheduler_returned : Whole fl hw e → Whole fl hw e
  scheduler_returned m =
      let (board, calls) = Fault.stop_motors m.g_tick_ms m.board in
      record m { board = board; calls = m.calls ++ calls }

  -- The hooks that FreeRTOS calls: each raises a fault and goes no further.
  unfoldable pub malloc_failed_hook : Whole fl hw e → Whole fl hw e
  malloc_failed_hook m = put_monitor m (raise m.g_tick_ms (monitor m) heap_fault 0)

  unfoldable pub stack_overflow_hook : Whole fl hw e → Whole fl hw e
  stack_overflow_hook m = put_monitor m (raise m.g_tick_ms (monitor m) stack_fault 0)

  unfoldable pub assert_hook : ℕ → Whole fl hw e → Whole fl hw e
  assert_hook line m = put_monitor m (raise m.g_tick_ms (monitor m) stack_fault line)
