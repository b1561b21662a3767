-- ===== src/App/Machine/WellFormed.antt =====
-- What every step of the firmware keeps.
use nuedc_control_freertos.Prelude.{
  ℕ, ◌≤◌, none, some, List, [], ◌≡◌, refl, ap, ◌∙◌, arith, length, Option-cases, inl, inr, Returns,
  Returns->>=,
}
use nuedc_control_freertos.Platform.Calls.{Trace}
use nuedc_control_freertos.Platform.Wiring.{encoder_pins}
use nuedc_control_freertos.Platform.Uart.{read_irq_byte}
use nuedc_control_freertos.Platform.Uart.Sent.{IsPrompt}
use nuedc_control_freertos.System.Fault
use nuedc_control_freertos.System.Fault.{SystemFaultCode, task_stale}
use nuedc_control_freertos.System.Health.{task_imu, task_fast_io, task_control, task_telemetry}
use nuedc_control_freertos.System.Health.Deadlines.{IsComplete, beat-IsComplete}
use nuedc_control_freertos.System.Monitor
use nuedc_control_freertos.System.Monitor.{Monitor, health_round}
use nuedc_control_freertos.Telemetry.Command.{
  Port, Reply, TelemetryImuCalRequest, imu_cal_none, imu_cal_start, imu_cal_cancel, consume_imu_cal,
}
use nuedc_control_freertos.Telemetry.Command.Line.{on_rx_byte-short}
use nuedc_control_freertos.Telemetry.Uart.{DebugUart, irq_handler}
use nuedc_control_freertos.Telemetry.Emit
use nuedc_control_freertos.Telemetry.Emit.{print}
use nuedc_control_freertos.Telemetry.Emit.Output.{IsKept, print-Returns}
use nuedc_control_freertos.Control.Floats.{Floats}
use nuedc_control_freertos.Control.LineTracker
use nuedc_control_freertos.Imu.Service.{ImuBoard, State}
use nuedc_control_freertos.Imu.Service.Task.{request_yaw_calibration, cancel_yaw_calibration}
use nuedc_control_freertos.App.Tasks.{fast_round}
use nuedc_control_freertos.App.Mission.{Inputs}
use nuedc_control_freertos.App.Mission.Lost.{guided_round-control_round}
use nuedc_control_freertos.App.Machine.Driven.{
  IsDriven, safety_tick-IsDriven, stop_motors-IsDriven, health_round-IsDriven,
  control_round-IsDriven,
}
use nuedc_control_freertos.App.Machine.Steps.{Anything, run-keeps, All-Anything}
use nuedc_control_freertos.App.Machine.{
  Environment, Step, fast, control, telemetry, health, received, edge, sensed, alive, raised, Whole,
  on_byte, car, monitor, put_monitor, fast_task, control_task, pass_on, telemetry_task,
  rx_interrupt, step, run,
}

module _ (fl : Floats) (hw : ImuBoard) (e : Environment fl.Float) where
  -- Both motors stand or go forward within their limit, the command line has room for its
  -- terminator, every task has a heartbeat, and the received bytes go to the command port.
  pub record IsWellFormed (m : Whole fl hw e) : Type 0 where
    pub driven : IsDriven m.board
    pub short : length m.port.cmd_line ≤ 79
    pub complete : IsComplete m.sensor.health
    pub attached : m.uart.callback ≡ some (on_byte fl hw e)

  pass_on-health :
      (r : TelemetryImuCalRequest) (s : State fl hw) → (pass_on fl hw e r s).health ≡ s.health
  unfolding pass_on request_yaw_calibration cancel_yaw_calibration
  pass_on-health imu_cal_none s = refl
  pass_on-health imu_cal_start s = refl
  pass_on-health imu_cal_cancel s = refl

  fast-IsWellFormed :
      (read_pins : ℕ → ℕ → ℕ) (now : ℕ) (m : Whole fl hw e)
      → IsWellFormed m
      → IsWellFormed (fast_task fl hw e read_pins now m)
  unfolding fast_task fast_round
  fast-IsWellFormed read_pins now m w = record {
    driven = safety_tick-IsDriven m.board now w.driven;
    short = w.short;
    complete = beat-IsComplete m.sensor.health task_fast_io now w.complete;
    attached = w.attached;
  }

  control-IsWellFormed :
      (i : Inputs) (m : Whole fl hw e) → IsWellFormed m → IsWellFormed (control_task fl hw e i m)
  unfolding control_task
  control-IsWellFormed i m w =
      let turn = (LineTracker.update fl i.values i.marks m.tracker).1 in
      let pins = encoder_pins e.pin_map in
      record {
        driven =
            rw (guided_round-control_round fl pins i (car m) m.tracker)
              (control_round-IsDriven fl pins i.read_pins turn i.now (car m) w.driven);
        short = w.short;
        complete = beat-IsComplete m.sensor.health task_control i.now w.complete;
        attached = w.attached;
      }

  -- what the health monitor leaves, on the machine
  monitored-IsWellFormed :
      (m : Whole fl hw e) (out : Monitor × Trace)
      → IsDriven out.0.board
      → IsWellFormed m
      → IsWellFormed (put_monitor m out)
  monitored-IsWellFormed m out d w = record {
    driven = d;
    short = w.short;
    complete = w.complete;
    attached = w.attached;
  }

  pub raise-IsDriven :
      (tick : ℕ) (m : Monitor) (code : SystemFaultCode) (detail : ℕ)
      → IsDriven m.board
      → IsDriven (Monitor.raise tick m code detail).0.board
  unfolding Monitor.raise Fault.raise
  raise-IsDriven tick m code detail d = stop_motors-IsDriven tick m.board d

  telemetry-IsWellFormed :
      (now : ℕ) (m : Whole fl hw e)
      → IsPrompt e.dev e.uart.inst e.looks
      → IsWellFormed m
      → Returns (telemetry_task fl hw e now m) IsWellFormed
  unfolding telemetry_task consume_imu_cal
  telemetry-IsWellFormed now m prompt w =
      let lines = (Emit.tick fl m.emitter m.port now (m.ctx, m.tracker.sensor.frame)).1 in
      let passed = pass_on fl hw e m.port.imu_cal_request m.sensor in
      Returns->>= (IsKept m.uart) IsWellFormed (print e.dev e.uart e.looks e.line_text lines m.uart)
        _ (print-Returns e.dev e.uart e.looks e.line_text lines m.uart prompt)
        (λ u same. record {
          driven = w.driven;
          short = w.short;
          complete = beat-IsComplete passed.health task_telemetry now (
              ap (λ h. length h.beats) (pass_on-health m.port.imu_cal_request m.sensor)
              ∙ w.complete);
          attached = same ∙ w.attached;
        })

  -- what the interrupt of a received byte, and of no byte, leaves
  pub irq-byte :
      (u : DebugUart (Port × List Reply)) (p : Port) (b : ℕ)
      → u.callback ≡ some (on_byte fl hw e)
      → (read_irq_byte e.dev e.uart u.history).1 ≡ some b
      → irq_handler e.dev e.uart u (p, []) ≡ (
        record u { history = (read_irq_byte e.dev e.uart u.history).0 },
        on_byte fl hw e b (p, []),
      )
  unfolding irq_handler
  irq-byte u p b attached got = ground (arith, attached, got)

  irq_quiet :
      (u : DebugUart (Port × List Reply)) (p : Port)
      → (read_irq_byte e.dev e.uart u.history).1 ≡ none
      → irq_handler e.dev e.uart u (p, [])
        ≡ (record u { history = (read_irq_byte e.dev e.uart u.history).0 }, (p, []))
  unfolding irq_handler
  irq_quiet u p quiet = ground (arith, quiet)

  irq-short :
      (u : DebugUart (Port × List Reply)) (p : Port)
      → u.callback ≡ some (on_byte fl hw e)
      → length p.cmd_line ≤ 79
      → let out = irq_handler e.dev e.uart u (p, []) in
        (length out.1.0.cmd_line ≤ 79) × IsKept u out.0
  irq-short u p attached short = elim (Option-cases (read_irq_byte e.dev e.uart u.history).1) [
    | inl quiet ↦ rw (irq_quiet u p quiet, length) (short, refl)
    | inr (b, got) ↦
        rw (irq-byte u p b attached got, length)
          (on_rx_byte-short e.atoi e.strtol e.strtoul p b short, refl)
  ]

  received-IsWellFormed :
      (m : Whole fl hw e)
      → IsPrompt e.dev e.uart.inst e.looks
      → IsWellFormed m
      → Returns (rx_interrupt fl hw e m) IsWellFormed
  unfolding rx_interrupt
  received-IsWellFormed m prompt w =
      let (u, s) = irq_handler e.dev e.uart m.uart (m.port, []) in
      let (short, kept) = irq-short m.uart m.port w.attached w.short in
      Returns->>= (IsKept u) IsWellFormed (print e.dev e.uart e.looks e.reply_text s.1 u) _
        (print-Returns e.dev e.uart e.looks e.reply_text s.1 u prompt)
        (λ u' same. record {
          driven = w.driven;
          short = short;
          complete = w.complete;
          attached = same ∙ kept ∙ w.attached;
        })

  step-IsWellFormed :
      (s : Step fl.Float hw.vendor.State) (m : Whole fl hw e)
      → IsPrompt e.dev e.uart.inst e.looks
      → IsWellFormed m
      → Returns (step fl hw e m s) IsWellFormed
  unfolding step
  step-IsWellFormed (fast read_pins now) m prompt w = fast-IsWellFormed read_pins now m w
  step-IsWellFormed (control i) m prompt w = control-IsWellFormed i m w
  step-IsWellFormed (telemetry now) m prompt w = telemetry-IsWellFormed now m prompt w
  step-IsWellFormed (health now) m prompt w =
      monitored-IsWellFormed m (health_round m.g_tick_ms (monitor m) now)
        (health_round-IsDriven m.g_tick_ms (monitor m) now w.driven) w
  step-IsWellFormed received m prompt w = received-IsWellFormed m prompt w
  step-IsWellFormed (edge read_pins pending) m prompt w = record {
    driven = w.driven;
    short = w.short;
    complete = w.complete;
    attached = w.attached;
  }
  step-IsWellFormed (sensed s) m prompt w = record {
    driven = w.driven;
    short = w.short;
    complete = w.complete;
    attached = w.attached;
  }
  step-IsWellFormed (alive now) m prompt w = record {
    driven = w.driven;
    short = w.short;
    complete = beat-IsComplete m.sensor.health task_imu now w.complete;
    attached = w.attached;
  }
  step-IsWellFormed (raised code detail) m prompt w =
      monitored-IsWellFormed m (Monitor.raise m.g_tick_ms (monitor m) code detail)
        (raise-IsDriven m.g_tick_ms (monitor m) code detail w.driven) w

  pub run-IsWellFormed :
      (ss : List (Step fl.Float hw.vendor.State)) (m : Whole fl hw e)
      → IsPrompt e.dev e.uart.inst e.looks
      → IsWellFormed m
      → Returns (run fl hw e m ss) IsWellFormed
  run-IsWellFormed ss m prompt w =
      run-keeps fl hw e Anything IsWellFormed (λ s m _ w'. step-IsWellFormed s m prompt w') ss m
        (All-Anything ss) w
