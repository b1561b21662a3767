-- ===== src/App/Machine/Stop.antt =====
-- The byte that stops the car, from the interrupt of the debug UART to the motors.
use nuedc_control_freertos.Prelude.{
  ℕ, true, false, ◌&&◌, some, [], ◌∷◌, ◌≡◌, refl, ap, ◌∙◌, Returns,
}
use nuedc_control_freertos.Platform.Wiring.{encoder_pins}
use nuedc_control_freertos.Platform.Uart
use nuedc_control_freertos.Platform.Uart.{read_irq_byte}
use nuedc_control_freertos.Motor.Board.Bounds.{IsValid}
use nuedc_control_freertos.Telemetry.Command.{on_rx_byte}
use nuedc_control_freertos.Telemetry.Emit.{print}
use nuedc_control_freertos.Control.Floats.{Floats}
use nuedc_control_freertos.Control.LineTracker
use nuedc_control_freertos.Control.Chassis.Tick.{Drives, debug_left, debug_right}
use nuedc_control_freertos.Imu.Service.{ImuBoard}
use nuedc_control_freertos.App.{Car, idle, is_run}
use nuedc_control_freertos.App.Round.{next_state, round-next_state, round-stopped}
use nuedc_control_freertos.App.Mission.{Inputs}
use nuedc_control_freertos.App.Mission.Lost.{guided_round-control_round}
use nuedc_control_freertos.App.Machine.WellFormed.{irq-byte}
use nuedc_control_freertos.App.Machine.{
  Environment, control, received, Whole, on_byte, car, control_task, rx_interrupt, step, run,
}

-- `x` in ASCII
abbrev pub stop_byte : ℕ
stop_byte = 120

module _ (fl : Floats) (hw : ImuBoard) (e : Environment fl.Float) where
  abbrev asked_to_stop : Whole fl hw e → Uart.History → Whole fl hw e
  asked_to_stop m h = record m {
    uart = record m.uart { history = h };
    port = record m.port { requests = record m.port.requests { stop_request = true } };
  }

  rx_interrupt-stops :
      (m : Whole fl hw e)
      → m.uart.callback ≡ some (on_byte fl hw e)
      → (read_irq_byte e.dev e.uart m.uart.history).1 ≡ some stop_byte
      → rx_interrupt fl hw e m
        ≡ some (asked_to_stop m (read_irq_byte e.dev e.uart m.uart.history).0)
  unfolding rx_interrupt print on_rx_byte
  rx_interrupt-stops m attached arrived =
      rw (irq-byte fl hw e m.uart m.port stop_byte attached arrived) refl

  next-idle :
      {F : Type 0} (k : Car F)
      → k.requests.stop_request ≡ true
      → k.requests.duty_request_pending ≡ false
      → (k.requests.start_request && k.ctx.imu_ready) ≡ false
      → next_state k ≡ idle
  next-idle k stop duty start = rw (duty, start, stop) refl

  control_task-stops :
      (i : Inputs) (m : Whole fl hw e)
      → IsValid m.board
      → m.port.requests.stop_request ≡ true
      → m.port.requests.duty_request_pending ≡ false
      → (m.port.requests.start_request && m.ctx.imu_ready) ≡ false
      → let m' = control_task fl hw e i m in
        (m'.ctx.state ≡ idle)
        × Drives i.now (debug_left m.ctx.chassis i.now) (debug_right m.ctx.chassis i.now) m'.board
  unfolding control_task
  control_task-stops i m valid stop duty start =
      let pins = encoder_pins e.pin_map in
      let turn = (LineTracker.update fl i.values i.marks m.tracker).1 in
      let next = next-idle (car m) stop duty start in
      rw (guided_round-control_round fl pins i (car m) m.tracker) (
        round-next_state fl pins i.read_pins turn i.now (car m) ∙ next,
        round-stopped fl pins i.read_pins turn i.now (car m) valid duty (ap is_run next),
      )

  -- On a valid board, where the UART's bytes go to the command port, no duty request is pending and
  -- no start request that the sensor's state allows: if the byte `x` arrives, in any state of the
  -- command line, its interrupt and the next round of the control task return, the state is idle,
  -- and the motors are given the clamped debug duty that is still live, and 0 where none is.
  pub received-stops :
      (i : Inputs) (m : Whole fl hw e)
      → m.uart.callback ≡ some (on_byte fl hw e)
      → (read_irq_byte e.dev e.uart m.uart.history).1 ≡ some stop_byte
      → IsValid m.board
      → m.port.requests.duty_request_pending ≡ false
      → (m.port.requests.start_request && m.ctx.imu_ready) ≡ false
      → Returns (run fl hw e m (received ∷ control i ∷ [])) (λ m'.
        (m'.ctx.state ≡ idle)
        × Drives i.now (debug_left m.ctx.chassis i.now) (debug_right m.ctx.chassis i.now) m'.board)
  unfolding run step
  received-stops i m attached arrived valid duty start =
      let h = (read_irq_byte e.dev e.uart m.uart.history).0 in
      rw (rx_interrupt-stops m attached arrived)
        (control_task-stops i (asked_to_stop m h) valid refl duty start)
