-- ===== src/App/Boot/Held.antt =====
-- The firmware from its start until the sensor is ready.
use nuedc_control_freertos.Prelude.{Bool, List, refl, All, Returns, Bool-cases, inl, inr}
use nuedc_control_freertos.Platform.Uart.Sent.{IsPrompt}
use nuedc_control_freertos.Control.Floats.{Floats}
use nuedc_control_freertos.Imu.Service.{ImuBoard}
use nuedc_control_freertos.Imu.Service.Task
use nuedc_control_freertos.App
use nuedc_control_freertos.App.{set_state, halt, shared_set_state}
use nuedc_control_freertos.App.Tasks.{snapshot_ready}
use nuedc_control_freertos.App.Machine.{Environment, Step, Whole, run}
use nuedc_control_freertos.App.Machine.Held.{IsUnready, IsHeld, run-IsHeld}
use nuedc_control_freertos.App.Boot.{TaskName, Setup, create_tasks, start_tasks, prepare, boot}

module _ (fl : Floats) (hw : ImuBoard) (e : Environment fl.Float) where
  start_tasks-IsHeld :
      (created : TaskName → Bool) (m : Whole fl hw e)
      → IsHeld m
      → IsHeld (start_tasks fl hw e created m)
  unfolding start_tasks set_state halt shared_set_state
  start_tasks-IsHeld created m h = elim (Bool-cases (create_tasks created)) [
    | inl all ↦ rw all h
    | inr missing ↦
        rw missing (record { standing = refl; unready = h.unready; unpublished = h.unpublished })
  ]

  boot-IsHeld :
      (created : TaskName → Bool) (s : Setup fl.Float hw.vendor.State)
      → IsHeld (boot fl hw e created s)
  unfolding boot prepare App.init set_state halt shared_set_state Task.init snapshot_ready
  boot-IsHeld created s =
      start_tasks-IsHeld created _ (record { standing = refl; unready = refl; unpublished = refl })

  -- From the start, whatever tasks can be created, through any rounds, interrupts and faults: if the
  -- UART is no longer busy after so many looks, the firmware goes on, and as long as the sensor's task
  -- leaves no ready snapshot, the car does not run.
  pub run-boot-IsHeld :
      (created : TaskName → Bool) (s : Setup fl.Float hw.vendor.State)
      (ss : List (Step fl.Float hw.vendor.State))
      → IsPrompt e.dev e.uart.inst e.looks
      → All IsUnready ss
      → Returns (run fl hw e (boot fl hw e created s) ss) IsHeld
  run-boot-IsHeld created s ss prompt never =
      run-IsHeld fl hw e ss (boot fl hw e created s) prompt never (boot-IsHeld created s)
