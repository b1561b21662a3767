-- ===== src/Telemetry/Tests.antt =====
-- Examples of the debug log, a ring of six bytes, three of them unread, that goes round; and of the
-- command port with a line begun.
use nuedc_control_freertos.Prelude.{
  ℕ, ◌-◌, ℤ, pos, true, false, List, none, some, Option, [], ◌∷◌, ◌++◌, ◌≡◌, refl, arith,
}
use nuedc_control_freertos.Telemetry.Command.{Port, imu_cal_none, ok_stop, handle_line, cut, same}
use nuedc_control_freertos.Telemetry.Command.Line.{feed, feed-line}
use nuedc_control_freertos.Control.Tests.{integers}
use nuedc_control_freertos.Telemetry.Emit.{Emitter, bind_chassis}
use nuedc_control_freertos.Telemetry.Emit.Schedule.{Moment, run, schedule, run-schedule}
use nuedc_control_freertos.Telemetry.RttLog.{RttBufferUp, write, space_available}
use nuedc_control_freertos.Telemetry.RttLog.Queue.{IsValid, contents, write-appends}

abbrev ring : RttBufferUp
ring = record { buffer = 5 ∷ 0 ∷ 0 ∷ 0 ∷ 3 ∷ 4 ∷ []; size = 6; wr_off = 1; rd_off = 4 }

ring-IsValid : IsValid ring
ring-IsValid = omega arith

write-appends_example :
    (contents (write ring (some (7 ∷ 8 ∷ []))) ≡ 3 ∷ 4 ∷ 5 ∷ 7 ∷ 8 ∷ [])
    × IsValid (write ring (some (7 ∷ 8 ∷ [])))
unfolding space_available
write-appends_example = write-appends ring (7 ∷ 8 ∷ []) ring-IsValid (omega arith) (omega arith)

abbrev port : Port
port = record {
  requests = record {
    start_request = false;
    stop_request = false;
    duty_request_pending = false;
    duty_request = record { left_pwm = pos 0; right_pwm = pos 0; hold_ms = 0 };
  };
  imu_cal_request = imu_cal_none;
  period_ms = 10;
  enabled = true;
  raw_line_enabled = false;
  raw_imu_enabled = false;
  cmd_line = 36 ∷ [];
}

-- the value of the last digit alone
abbrev last_digit : List ℕ → ℕ
last_digit [] = 0
last_digit (c ∷ []) = c - 48
last_digit (_ ∷ cs) = last_digit cs

abbrev value : List ℕ → ℤ
value cs = pos (last_digit cs)

-- `STOP` after the `$` that is there
abbrev stop_bytes : List ℕ
stop_bytes = 83 ∷ 84 ∷ 79 ∷ 80 ∷ []

feed-line_example : feed value value last_digit port (stop_bytes ++ (10 ∷ [])) ≡ (
  record port { requests = record port.requests { stop_request = true }; cmd_line = [] },
  ok_stop ∷ [],
)
unfolding handle_line cut same
feed-line_example =
    feed-line value value last_digit port stop_bytes (refl, (refl, (refl, (refl, tt))))
      (omega arith)

-- an emitter whose chassis stands at the point that the memory names
abbrev emitter : Emitter ℤ ℤ
emitter =
    let here : Option (ℤ → ℤ) = some (λ w. w) in
    bind_chassis (some (λ w. 1)) here here here here here here here here (record {
      chassis = record {
        state = none;
        x_cm = none;
        y_cm = none;
        theta_rad = none;
        target_l = none;
        target_r = none;
        meas_l = none;
        meas_r = none;
        line_turn = none;
        valid = false;
      };
      line = record {
        raw = none;
        raw_count = 0;
        contrast = none;
        strength = none;
        bias = none;
        on_line = none;
        valid = false;
      };
      imu = record {
        pitch_deg = none;
        roll_deg = none;
        yaw_deg = none;
        gx_dps = none;
        gy_dps = none;
        gz_dps = none;
        ax_g = none;
        ay_g = none;
        az_g = none;
        ready = none;
        valid = false;
      };
      last_emit_ms = 0;
      emit_primed = false;
    })

-- ticks on both sides of the end of the 32-bit time
abbrev moment : ℕ → Moment ℤ
moment time = record { time = time; port = port; memory = pos 7 }

abbrev moments : List (Moment ℤ)
moments = moment 4294967290 ∷ moment 4294967295 ∷ moment 4294967300 ∷ []

run-schedule_example : run integers emitter moments ≡ schedule integers emitter none moments
unfolding bind_chassis
run-schedule_example = run-schedule integers emitter moments 4294967290 refl (
  omega arith,
  omega arith,
  omega arith,
  refl,
  (omega arith, omega arith, omega arith, refl, (omega arith, omega arith, omega arith, refl, tt)),
)
