-- ===== src/App/Machine.antt =====
-- The whole firmware: the state that the tasks and the interrupts share, and the rounds of app_tasks.c
-- on it. A round is one step. The sensor's task, whose rounds wait for the hardware, enters by what
-- it leaves between the others' rounds.
pub mod Steps
pub mod Held
pub mod Calibrate
pub mod Stop
pub mod Unfed
pub mod Driven
pub mod WellFormed
use nuedc_control_freertos.Prelude.{ℕ, ℤ, Option, none, some, ◌>>=◌, List, [], ◌∷◌, ◌++◌}
use nuedc_control_freertos.Platform.Calls.{Trace}
use nuedc_control_freertos.Platform.PinMap.{PinMap}
use nuedc_control_freertos.Platform.Wiring.{encoder_pins}
use nuedc_control_freertos.Platform.Uart.{UartDevice, DrvUartPort}
use nuedc_control_freertos.Motor.Board.{Board}
use nuedc_control_freertos.Encoder
use nuedc_control_freertos.Encoder.{Encoders}
use nuedc_control_freertos.System.Fault.{Faults, SystemFaultCode}
use nuedc_control_freertos.System.Health
use nuedc_control_freertos.System.Health.{task_imu, task_control, task_telemetry}
use nuedc_control_freertos.System.Monitor
use nuedc_control_freertos.System.Monitor.{Monitor, health_round}
use nuedc_control_freertos.Telemetry.Command.{
  Port, Reply, TelemetryImuCalRequest, imu_cal_none, imu_cal_start, imu_cal_cancel, consume_imu_cal,
  on_rx_byte,
}
use nuedc_control_freertos.Telemetry.Emit
use nuedc_control_freertos.Telemetry.Emit.{Emitter, Line, print}
use nuedc_control_freertos.Telemetry.Uart.{DebugUart, irq_handler}
use nuedc_control_freertos.Control.Floats.{Floats}
use nuedc_control_freertos.Control.LineTracker.{LineTracker}
use nuedc_control_freertos.LineSensor.{DevLineSensorFrame}
use nuedc_control_freertos.Imu.Service.{ImuBoard, Service, State}
use nuedc_control_freertos.Imu.Service.Task.{request_yaw_calibration, cancel_yaw_calibration}
use nuedc_control_freertos.App.{AppContext, Car}
use nuedc_control_freertos.App.Tasks.{fast_round}
use nuedc_control_freertos.App.Mission.{Inputs, guided_round}

-- the memory behind the pointers that the telemetry is bound to
abbrev pub Memory : Type 0 → Type 0
Memory F = AppContext F × DevLineSensorFrame F

-- The board's pins, the C library, the UART's hardware with the looks at it that are enough, and the texts that
-- `vsnprintf` makes, each with what stands behind the buffer.
pub record Environment (F : Type 0) : Type 0 where
  pub pin_map : PinMap
  pub atoi : List ℕ → ℤ
  pub strtol : List ℕ → ℤ
  pub strtoul : List ℕ → ℕ
  pub dev : UartDevice
  pub uart : DrvUartPort
  pub looks : ℕ
  pub line_text : Line F → List ℕ × List ℕ
  pub reply_text : Reply → List ℕ × List ℕ

-- The static variables of the modules. The sensor's service has the snapshot and the heartbeats; the
-- port has the requests; the replies are those of the interrupt that runs.
pub record Machine (F S : Type 0) : Type 0 where
  pub g_tick_ms : ℕ
  pub ctx : AppContext F
  pub encoders : Encoders
  pub board : Board
  pub calls : Trace
  pub tracker : LineTracker F
  pub port : Port
  pub emitter : Emitter (Memory F) F
  pub uart : DebugUart (Port × List Reply)
  pub sensor : Service F S
  pub faults : Faults

-- what the control task works on
abbrev pub car : {F S : Type 0} → Machine F S → Car F
car m = record {
  ctx = m.ctx;
  encoders = m.encoders;
  board = m.board;
  requests = m.port.requests;
  calls = m.calls;
}

abbrev pub put_car : {F S : Type 0} → Machine F S → Car F → Machine F S
put_car m k = record m {
  ctx = k.ctx;
  encoders = k.encoders;
  board = k.board;
  port = record m.port { requests = k.requests };
  calls = k.calls;
}

-- `System_Health_Beat`
abbrev beat : {F S : Type 0} → Machine F S → ℕ → ℕ → Machine F S
beat m task now = record m {
  sensor = record m.sensor { health = Health.beat m.sensor.health task now };
}

-- what the health task works on
abbrev pub monitor : {F S : Type 0} → Machine F S → Monitor
monitor m = record { faults = m.faults; health = m.sensor.health; board = m.board }

abbrev pub put_monitor : {F S : Type 0} → Machine F S → Monitor × Trace → Machine F S
put_monitor m (mon, t) = record m { faults = mon.faults; board = mon.board; calls = m.calls ++ t }

pub data Step (F S : Type 0) : Type 0 where
  fast : (ℕ → ℕ → ℕ) → ℕ → Step F S  -- a round of `fast_task`
  control : Inputs → Step F S  -- a round of `control_task`
  telemetry : ℕ → Step F S  -- a round of `telemetry_task`
  health : ℕ → Step F S  -- a round of `health_task`
  received : Step F S  -- the interrupt of the debug UART
  edge : (ℕ → ℕ → ℕ) → ℕ → Step F S  -- the interrupt of the encoder pins
  sensed : Service F S → Step F S  -- what the sensor's task leaves, but for the heartbeats
  alive : ℕ → Step F S  -- a heartbeat of the sensor's task
  raised : SystemFaultCode → ℕ → Step F S  -- `System_Fault_Raise`

module _ (fl : Floats) (hw : ImuBoard) (e : Environment fl.Float) where
  open fl use {Float}

  abbrev pub Whole : Type 0
  Whole = Machine Float hw.vendor.State

  unfoldable pub fast_task : (ℕ → ℕ → ℕ) → ℕ → Whole → Whole
  fast_task read_pins now m =
      let f =
        fast_round fl (encoder_pins e.pin_map) read_pins now
          (record { car = car m; snapshot = m.sensor.snapshot; health = m.sensor.health }) in
      record (put_car m f.car) { g_tick_ms = now; sensor = record m.sensor { health = f.health } }

  unfoldable pub control_task : Inputs → Whole → Whole
  control_task i m =
      let (k, tracker) = guided_round fl (encoder_pins e.pin_map) i (car m, m.tracker) in
      beat (record (put_car m k) { g_tick_ms = i.now; tracker = tracker }) task_control i.now

  -- the request for a calibration of the yaw scale that the telemetry task has consumed
  unfoldable pub pass_on : TelemetryImuCalRequest → State fl hw → State fl hw
  pass_on imu_cal_none s = s
  pass_on imu_cal_start s = request_yaw_calibration fl hw s
  pass_on imu_cal_cancel s = cancel_yaw_calibration fl hw s

  unfoldable pub telemetry_task : ℕ → Whole → Option Whole
  telemetry_task now m = do
    let (emitter, lines) = Emit.tick fl m.emitter m.port now (m.ctx, m.tracker.sensor.frame)
    uart ← print e.dev e.uart e.looks e.line_text lines m.uart
    let (port, request) = consume_imu_cal m.port
    let sensor = pass_on request m.sensor
    let m' = record m {
      g_tick_ms = now;
      emitter = emitter;
      uart = uart;
      port = port;
      sensor = sensor;
    }
    some (beat m' task_telemetry now)

  -- `Telemetry_OnRxByte` as the callback of the debug UART
  abbrev pub on_byte : ℕ → Port × List Reply → Port × List Reply
  on_byte byte s =
      let (port, replies) = on_rx_byte e.atoi e.strtol e.strtoul s.0 byte in (port, s.1 ++ replies)

  -- The interrupt of the debug UART, with the replies that `Telemetry_OnRxByte` prints in it.
  unfoldable pub rx_interrupt : Whole → Option Whole
  rx_interrupt m = do
    let (u, s) = irq_handler e.dev e.uart m.uart (m.port, [])
    uart ← print e.dev e.uart e.looks e.reply_text s.1 u
    some (record m { uart = uart; port = s.0 })

  unfoldable pub step : Whole → Step Float hw.vendor.State → Option Whole
  step m (fast read_pins now) = some (fast_task read_pins now m)
  step m (control i) = some (control_task i m)
  step m (telemetry now) = telemetry_task now m
  step m (health now) = some (put_monitor m (health_round m.g_tick_ms (monitor m) now))
  step m received = rx_interrupt m
  step m (edge read_pins pending) = some (record m {
    encoders = Encoder.group1_irq (encoder_pins e.pin_map) read_pins pending m.encoders;
  })
  step m (sensed s) = some (record m { sensor = record s { health = m.sensor.health } })
  step m (alive now) = some (beat m task_imu now)
  step m (raised code detail) =
      some (put_monitor m (Monitor.raise m.g_tick_ms (monitor m) code detail))

  unfoldable pub run : Whole → List (Step Float hw.vendor.State) → Option Whole
  run m [] = some m
  run m (s ∷ ss) = do m' ← step m s; run m' ss
