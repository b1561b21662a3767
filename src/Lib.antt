-- ===== src/Lib.antt =====
-- Verification of the NUEDC car firmware (FreeRTOS on an MSPM0G3507): models of its C modules and
-- theorems about them. A name in C such as `BSP_Motor_SafetyTick` is `Motor.Board.safety_tick` here:
-- the module stands for the file, and the operation keeps its words.
--
-- The program and the files that model it:
-- - platform/mspm0g3507/drivers: GPIO, PWM, H-bridge, quadrature decoder and tick, in Platform. What
--   a driver does to the hardware is the list of its DriverLib calls (Platform.Calls); what it reads
--   is an argument. DriverLib itself is not in the repository. The SPI and I2C transfers
--   (Platform.Spi, drv_spi.c, and Platform.I2c, drv_i2c.c) and the UART's (Platform.Uart,
--   drv_uart.c) extend the history of their calls, the newest first, and the hardware's answers are
--   functions of that history; Platform.Poll holds their wait loops.
-- - modules/display/ssd1306_mspm0.c: the text display, in Display, on the same kind of history.
-- - modules/imu: the sensor's handle, its samples and its two attitude filters (Imu.Device,
--   Imu.Sample and Imu.Attitude, device/dev_icm45688.c), the calibration of the yaw scale
--   (Imu.YawCalibration), the transport of the vendor's driver (Imu.Transport), and the start and the
--   rounds of the sensor task (Imu.Service, imu_service.c). The vendor's driver and the operating system's
--   clock are interfaces over one hardware state.
-- - modules/motor: the motor device (Motor.Device, dev_motor.c) and the two motors of the board with
--   the command timeout (Motor.Board, bsp_motor.c).
-- - modules/encoder: the counts of the two wheels, kept by the GPIO interrupt (Encoder,
--   bsp_encoder.c).
-- - system: the fault latch (System.Fault, fault_manager.c), the heartbeat monitor (System.Health,
--   health_monitor.c), and the health task of app/app_tasks.c, which feeds the watchdog or raises a
--   fault (System.Monitor).
-- - modules/vision: the parser of the camera's frames (Vision, dev_vision.c) and the camera's UART
--   (Vision.Board, bsp_k230.c).
-- - modules/telemetry: the ring of the debug log (Telemetry.RttLog, rtt_log.c), the debug UART
--   (Telemetry.Uart, bsp_uart.c), the command lines (Telemetry.Command) and the requests that they
--   leave for the tasks (Telemetry.Requests), and the lines that the telemetry emits
--   (Telemetry.Emit), all of telemetry.c. The number parsers and the formatting of
--   the C library are parameters.
-- - common and control: the regulator (Control.Pid, pid.c), the filters (Control.Sma and Control.Lpf,
--   filter.c) and the chassis with odometry, speed loops and debug duty (Control.Chassis, chassis.c).
-- - modules/line_sensor and control/line_tracker.c: the line sensor (Platform.LineSensor,
--   drv_line_sensor.c, and LineSensor, dev_line_sensor.c and bsp_adc.c) and the turn that follows the
--   line (Control.LineTracker).
-- - app: the state machine, the mission and the round of the control task, in App (app_state.c,
--   app_mission.c, app_shared.c and app_tasks.c), with the line tracker in App.Mission, and the
--   rounds of the fast and the control task as steps (App.Tasks).
-- - the whole firmware: App.Machine has the state of all modules and every task of app_tasks.c, with
--   the interrupts of the UART and the encoders, as steps in any order; App.Boot has its start, of
--   main.c, app/app_main.c and app_tasks.c. The pins come from platform/mspm0g3507/pin_map.h
--   (Platform.PinMap and Platform.Wiring). A round is one step, and the sensor's task, whose rounds
--   wait for the hardware, enters by what it leaves between the other rounds.
--
-- How the parts interact: the health task reads the heartbeats and the fault latch; raising a fault
-- commands both motors to duty 0; a motor command passes the board's clamp and the device's clamp,
-- and the H-bridge driver turns it into pin levels and a compare value. Tasks and interrupts that
-- share state appear as events in a list, in the order in which their critical sections run.
--
-- Numbers: unsigned words are natural numbers with their wrap-around written out, and signed values
-- are integers, with the conversions to narrower types written out (Prelude.Words). Encoder totals,
-- 64 bits wide in the source, have no bound here; a signed 32-bit sum wraps around here, where C
-- leaves its overflow undefined. Floating-point numbers are an interface without laws
-- (Control.Floats); the laws that a theorem needs are among its hypotheses. These loops run on fuel,
-- the other ones over a list or a count: an angle is brought back into its range by whole turns,
-- with fuel for 1000 turns each way (Control.Chassis and Imu.Attitude; where the loop of the source
-- needs more turns, or never ends, the model keeps the angle reached); the SPI receive FIFO is
-- drained with fuel for its depth; a UART is waited for with fuel for the looks that a byte takes; a
-- sleep of the sensor takes at most one turn a microsecond; a list sent to the display takes no more
-- packets than it has bytes; the wait for a sample takes at most one turn a tick, so that the timeout
-- and one turn more are enough; the calibration of the bias is tried again without end in the source.
-- A null pointer is `none`, or 0 where it is compared as a port or timer; functions that are only
-- called with the address of an object take the object.
--
-- Not modelled: SysConfig output, the vendor's sensor driver, the bench programs of tests, the
-- chassis without encoders (NUEDC_NO_ENCODER), the memory given to FreeRTOS's idle task, and the
-- texts that `vsnprintf` makes of the values that a line or an answer prints.
pub mod Prelude
pub mod Platform
pub mod Motor
pub mod System
pub mod Vision
pub mod Encoder
pub mod Telemetry
pub mod Control
pub mod App
pub mod Display
pub mod Imu
pub mod LineSensor
