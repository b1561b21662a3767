-- ===== src/App/Boot/Tests.antt =====
-- Examples of the firmware from its start on, with integers for the floating-point numbers and a
-- UART that is never busy.
use nuedc_control_freertos.Prelude.{
  ℕ, ℤ, Bool, true, false, List, [], ◌∷◌, ◌++◌, ◌≡◌, refl, pos, some, Returns,
}
use nuedc_control_freertos.Platform.PinMap.{LinePins}
use nuedc_control_freertos.System.Fault.{stack_fault}
use nuedc_control_freertos.Control.Tests.{integers, resting}
use nuedc_control_freertos.Telemetry.Command.{cal_start_word, imu_cal_none}
use nuedc_control_freertos.Telemetry.Command.Line.{feed}
use nuedc_control_freertos.Imu.YawCalibration.{wait_still}
use nuedc_control_freertos.Imu.Service.{calibrating}
use nuedc_control_freertos.Imu.Service.Task.{serve}
use nuedc_control_freertos.Imu.Tests.{board, service, first_snapshot}
use nuedc_control_freertos.Platform.Uart.{read_irq_byte}
use nuedc_control_freertos.Motor.Tests.{running, running-IsValid}
use nuedc_control_freertos.Control.Chassis.Tick.{Drives}
use nuedc_control_freertos.App.{AppState, idle}
use nuedc_control_freertos.App.Mission.{Inputs}
use nuedc_control_freertos.App.Machine.{Whole, on_byte}
use nuedc_control_freertos.App.Machine.Stop.{received-stops}
use nuedc_control_freertos.App.Tasks.{snapshot_ready}
use nuedc_control_freertos.App.Machine.{
  Environment, Step, fast, control, telemetry, health, received, sensed, alive, raised,
  telemetry_task, run,
}
use nuedc_control_freertos.App.Machine.Held.{IsHeld}
use nuedc_control_freertos.App.Machine.Unfed.{IsUnfed}
use nuedc_control_freertos.App.Machine.WellFormed.{IsWellFormed}
use nuedc_control_freertos.App.Machine.Calibrate.{telemetry_task-calibrates}
use nuedc_control_freertos.App.Boot.{TaskName, telemetry_name, Setup, create_tasks, prepare, boot}
use nuedc_control_freertos.App.Boot.Held.{run-boot-IsHeld}
use nuedc_control_freertos.App.Boot.Unfed.{run-boot-IsUnfed}
use nuedc_control_freertos.App.Boot.WellFormed.{run-boot-IsWellFormed}

abbrev environment : Environment ℤ
environment = record {
  pin_map = record {
    pwm_motor_inst = 7;
    pwm_ch_left = 0;
    pwm_ch_right = 1;
    motor_a_dir_port = 1;
    left_ain1_pin = 16;
    left_ain2_pin = 32;
    right_bin1_pin = 64;
    motor_b_dir_port = 2;
    right_bin2_pin = 16;
    enc_left_port = 1;
    enc_left_a_pin = 1;
    enc_left_b_pin = 2;
    enc_right_port = 1;
    enc_right_a_pin = 4;
    enc_right_b_pin = 8;
    imu_spi_inst = 9;
    imu_cs_port = 2;
    imu_cs_pin = 1;
    imu_int_port = 2;
    imu_int_pin = 2;
  };
  atoi = λ s. pos 0;
  strtol = λ s. pos 0;
  strtoul = λ s. 0;
  dev = record { busy = λ i h. false; rx_pending = λ i h. true; received = λ i h. 115 };
  uart = record { inst = 3; irqn = 15 };
  looks = 0;
  line_text = λ l. (36 ∷ 83 ∷ [], []);
  reply_text = λ r. (79 ∷ 75 ∷ [], []);
}

abbrev low : ℕ → ℕ → ℕ
low port pin = 0

abbrev line_pins : LinePins
line_pins = record {
  line_ccd0_port = 2;
  line_ccd0_pin = 64;
  line_ccd1_port = 2;
  line_ccd1_pin = 128;
  line_ccd2_port = 2;
  line_ccd2_pin = 256;
  line_ccd3_port = 1;
  line_ccd3_pin = 256;
  line_ccd4_port = 1;
  line_ccd4_pin = 512;
  line_ccd5_port = 1;
  line_ccd5_pin = 1024;
  line_ccd6_port = 1;
  line_ccd6_pin = 2048;
}

abbrev setup : Setup ℤ ℕ
setup = record { read_pins = low; line_pins = line_pins; service = service }

abbrev all_created : TaskName → Bool
all_created t = true

-- there is no memory for the last task
abbrev last_missing : TaskName → Bool
last_missing telemetry_name = false
last_missing _ = true

-- the byte `s`, which asks for a start, and rounds of the tasks while the sensor calibrates
abbrev early : List (Step ℤ ℕ)
early =
    sensed (record service { snapshot = record first_snapshot { state = calibrating } })
    ∷ fast low 5
    ∷ received
    ∷ control (record { read_pins = low; values = low; marks = low; now = 10 })
    ∷ telemetry 10
    ∷ alive 12
    ∷ health 20
    ∷ []

run-boot-IsHeld_example :
    Returns
      (run integers board environment (boot integers board environment all_created setup) early)
      IsHeld
unfolding snapshot_ready
run-boot-IsHeld_example =
    run-boot-IsHeld integers board environment all_created setup early (λ h. refl)
      (refl, (tt, (tt, (tt, (tt, (tt, (tt, tt)))))))

run-boot-IsUnfed_example :
    Returns
      (run integers board environment (boot integers board environment last_missing setup) early)
      IsUnfed
unfolding create_tasks
run-boot-IsUnfed_example =
    run-boot-IsUnfed integers board environment last_missing setup early (λ h. refl) refl

run-boot-IsWellFormed_example :
    Returns
      (run integers board environment
        (boot integers board environment all_created setup)
        (raised stack_fault 7 ∷ early))
      (IsWellFormed integers board environment)
run-boot-IsWellFormed_example =
    run-boot-IsWellFormed integers board environment all_created setup
      (raised stack_fault 7 ∷ early) (λ h. refl)

telemetry_task-calibrates_example :
    let m = prepare integers board environment setup in
    let p =
      (feed environment.atoi environment.strtol environment.strtoul m.port
        (cal_start_word ++ 10 ∷ [])).0 in
    Returns (telemetry_task integers board environment 30 (record m { port = p })) (λ m'.
      (m'.port.imu_cal_request ≡ imu_cal_none)
      × ((serve integers board m'.sensor).cal.state ≡ wait_still))
unfolding prepare
telemetry_task-calibrates_example =
    telemetry_task-calibrates integers board environment 30
      (prepare integers board environment setup) (λ h. refl) refl

-- the byte `x` arrives while the car runs
abbrev stopping : Environment ℤ
stopping = record environment {
  dev = record { busy = λ i h. false; rx_pending = λ i h. true; received = λ i h. 120 };
}

abbrev moving : Whole integers board stopping
moving =
    let m = prepare integers board stopping setup in
    record m {
      ctx = record m.ctx { state = AppState.run; chassis = resting; imu_ready = true };
      board = running;
      uart = record m.uart { callback = some (on_byte integers board stopping) };
    }

abbrev round_at_50 : Inputs
round_at_50 = record { read_pins = low; values = low; marks = low; now = 50 }

received-stops_example :
    Returns
      (run integers board stopping moving (received ∷ control round_at_50 ∷ []))
      (λ m'. (m'.ctx.state ≡ idle) × Drives 50 (pos 0) (pos 0) m'.board)
unfolding prepare read_irq_byte
received-stops_example =
    received-stops integers board stopping round_at_50 moving refl refl running-IsValid refl refl
