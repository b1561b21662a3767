-- ===== src/App/Boot/Unfed.antt =====
-- A start that cannot create every task.
use nuedc_control_freertos.Prelude.{ℕ, Bool, true, false, List, ◌≡◌, refl, ◌∙◌, arith, Returns}
use nuedc_control_freertos.Platform.Uart.Sent.{IsPrompt}
use nuedc_control_freertos.Platform.Wiring.{left_motor_config, right_motor_config}
use nuedc_control_freertos.Platform.QuadEncoder.{DrvQuadEncoder}
use nuedc_control_freertos.Motor.Device
use nuedc_control_freertos.Motor.Device.{DevMotor, DevMotorConfig}
use nuedc_control_freertos.Motor.Board
use nuedc_control_freertos.System.Fault
use nuedc_control_freertos.System.Fault.{heap_fault}
use nuedc_control_freertos.System.Monitor
use nuedc_control_freertos.System.Monitor.{watchdog_init}
use nuedc_control_freertos.System.Monitor.Watchdog.{feeds, feeds-append, feeds-start, feeds-raise}
use nuedc_control_freertos.Control.Floats.{Floats}
use nuedc_control_freertos.Imu.Service.{ImuBoard}
use nuedc_control_freertos.App
use nuedc_control_freertos.App.{Car, idle, fault, set_state, halt, shared_set_state}
use nuedc_control_freertos.App.Machine.{
  Environment, Step, Whole, run, car, put_car, monitor, put_monitor,
}
use nuedc_control_freertos.App.Machine.Unfed.{IsUnfed, unfed-append, feeds-set_state, run-IsUnfed}
use nuedc_control_freertos.App.Boot.{
  TaskName, Setup, zero_encoder, create_tasks, start_tasks, prepare, boot,
}

feeds-init :
    (read_pins : ℕ → ℕ → ℕ) (cleared : DrvQuadEncoder) (left right : DevMotorConfig)
    → feeds (Board.init read_pins cleared left right).1 ≡ false
unfolding Board.init Device.start
feeds-init read_pins cleared left right = grind (arith, feeds-append, feeds-start)

raise-active :
    (tick : ℕ) (m : Monitor.Monitor)
    → Fault.is_active (Monitor.raise tick m heap_fault 0).0.faults ≡ true
unfolding Monitor.raise Fault.raise Fault.latch Fault.is_active
raise-active tick m = ground arith

module _ (fl : Floats) (hw : ImuBoard) (e : Environment fl.Float) where
  feeds-prepare : (s : Setup fl.Float hw.vendor.State) → feeds (prepare fl hw e s).calls ≡ false
  unfolding prepare watchdog_init
  feeds-prepare s =
      feeds-init s.read_pins zero_encoder (left_motor_config e.pin_map)
        (right_motor_config e.pin_map)

  prepare-quiet :
      (s : Setup fl.Float hw.vendor.State) → Fault.is_active (prepare fl hw e s).faults ≡ false
  unfolding prepare Fault.init Fault.is_active
  prepare-quiet s = refl

  init-unfed : (tick : ℕ) (k : Car fl.Float) → feeds (App.init fl tick k).calls ≡ feeds k.calls
  unfolding App.init
  init-unfed tick k = feeds-set_state fl tick k idle

  start_tasks-IsUnfed :
      (created : TaskName → Bool) (m : Whole fl hw e)
      → create_tasks created ≡ false
      → feeds m.calls ≡ false
      → Fault.is_active m.faults ≡ false
      → IsUnfed (start_tasks fl hw e created m)
  unfolding start_tasks
  start_tasks-IsUnfed created m missing unfed none_active =
      let (mon, t) = Monitor.raise m.g_tick_ms (monitor m) heap_fault 0 in
      let m' = put_monitor m (mon, t) in
      rw missing (record {
        active = raise-active m.g_tick_ms (monitor m);
        unfed =
            feeds-set_state fl m.g_tick_ms (car m') fault
            ∙ unfed-append m.calls t (feeds-raise m.g_tick_ms (monitor m) heap_fault 0)
            ∙ unfed;
      })

  boot-IsUnfed :
      (created : TaskName → Bool) (s : Setup fl.Float hw.vendor.State)
      → create_tasks created ≡ false
      → IsUnfed (boot fl hw e created s)
  unfolding boot
  boot-IsUnfed created s missing =
      let m = prepare fl hw e s in
      start_tasks-IsUnfed created (put_car m (App.init fl m.g_tick_ms (car m))) missing
        (init-unfed m.g_tick_ms (car m) ∙ feeds-prepare s) (prepare-quiet s)

  -- If a task cannot be created, the watchdog is never fed, through any rounds, interrupts and faults,
  -- in which the firmware goes on if the UART is no longer busy after so many looks; and a fault stays
  -- active.
  pub run-boot-IsUnfed :
      (created : TaskName → Bool) (s : Setup fl.Float hw.vendor.State)
      (ss : List (Step fl.Float hw.vendor.State))
      → IsPrompt e.dev e.uart.inst e.looks
      → create_tasks created ≡ false
      → Returns (run fl hw e (boot fl hw e created s) ss) IsUnfed
  run-boot-IsUnfed created s ss prompt missing =
      run-IsUnfed fl hw e ss (boot fl hw e created s) prompt (boot-IsUnfed created s missing)
