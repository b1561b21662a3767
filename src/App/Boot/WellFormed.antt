-- ===== src/App/Boot/WellFormed.antt =====
-- The firmware from its start on.
use nuedc_control_freertos.Prelude.{ℕ, Bool, List, refl, arith, pos, Bool-cases, inl, inr, Returns}
use nuedc_control_freertos.Platform.Uart.Sent.{IsPrompt}
use nuedc_control_freertos.Motor.Device
use nuedc_control_freertos.Motor.Board
use nuedc_control_freertos.System.Health
use nuedc_control_freertos.System.Fault.{heap_fault}
use nuedc_control_freertos.System.Monitor.{raise}
use nuedc_control_freertos.Telemetry.Uart.{set_rx_callback}
use nuedc_control_freertos.Control.Floats.{Floats}
use nuedc_control_freertos.Control.Chassis.Tick.{drive-Drives}
use nuedc_control_freertos.Imu.Service.{ImuBoard}
use nuedc_control_freertos.App
use nuedc_control_freertos.App.{Car, AppState, set_state, halt, shared_set_state}
use nuedc_control_freertos.App.Machine.Driven.{IsDriven, Drives-IsDriven}
use nuedc_control_freertos.App.Machine.{Environment, Step, run, car, put_car, monitor, put_monitor}
use nuedc_control_freertos.App.Machine.WellFormed.{IsWellFormed, raise-IsDriven, run-IsWellFormed}
use nuedc_control_freertos.App.Boot.{TaskName, Setup, create_tasks, start_tasks, prepare, boot}

module _ (fl : Floats) (hw : ImuBoard) (e : Environment fl.Float) where
  set_state-IsDriven :
      (tick : ℕ) (k : Car fl.Float) (s : AppState)
      → IsDriven k.board
      → IsDriven (set_state fl tick k s).board
  unfolding set_state halt shared_set_state
  set_state-IsDriven tick k s d = elim (Bool-cases (App.is_run s)) [
    | inl runs ↦ rw runs d
    | inr stands ↦ rw stands (Drives-IsDriven _ (drive-Drives tick k.board (pos 0) (pos 0) d.valid))
  ]

  prepare-IsWellFormed :
      (s : Setup fl.Float hw.vendor.State) → IsWellFormed fl hw e (prepare fl hw e s)
  unfolding prepare Board.init Device.init Device.start set_rx_callback Health.init Health.beat
  prepare-IsWellFormed s = record {
    driven = record {
      valid = record {
        left_limit = refl;
        right_limit = refl;
        left_bound = omega arith;
        right_bound = omega arith;
      };
      left = (refl, refl);
      right = (refl, refl);
    };
    short = omega arith;
    complete = refl;
    attached = refl;
  }

  boot-IsWellFormed :
      (created : TaskName → Bool) (s : Setup fl.Float hw.vendor.State)
      → IsWellFormed fl hw e (boot fl hw e created s)
  unfolding boot start_tasks App.init
  boot-IsWellFormed created s =
      let m = prepare fl hw e s in
      let w = prepare-IsWellFormed s in
      let k = App.init fl m.g_tick_ms (car m) in
      let begun : IsDriven k.board = set_state-IsDriven m.g_tick_ms (car m) App.idle w.driven in
      let m' = put_car m k in
      let d = raise-IsDriven fl hw e m'.g_tick_ms (monitor m') heap_fault 0 begun in
      let failed = put_monitor m' (raise m'.g_tick_ms (monitor m') heap_fault 0) in
      elim (Bool-cases (create_tasks created)) [
        | inl all ↦ rw all (record {
          driven = begun;
          short = w.short;
          complete = w.complete;
          attached = w.attached;
        })
        | inr missing ↦ rw missing (record {
          driven = set_state-IsDriven m'.g_tick_ms (car failed) App.fault d;
          short = w.short;
          complete = w.complete;
          attached = w.attached;
        })
      ]

  -- From the start, whatever tasks can be created, through any rounds, interrupts and faults: if the
  -- UART is no longer busy after so many looks, the firmware goes on, with both motors at rest or
  -- forward within their limit, a command line of at most 79 bytes, a heartbeat for each task and the
  -- command port attached to the UART.
  pub run-boot-IsWellFormed :
      (created : TaskName → Bool) (s : Setup fl.Float hw.vendor.State)
      (ss : List (Step fl.Float hw.vendor.State))
      → IsPrompt e.dev e.uart.inst e.looks
      → Returns (run fl hw e (boot fl hw e created s) ss) (IsWellFormed fl hw e)
  run-boot-IsWellFormed created s ss prompt =
      run-IsWellFormed fl hw e ss (boot fl hw e created s) prompt (boot-IsWellFormed created s)
