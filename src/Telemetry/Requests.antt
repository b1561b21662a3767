-- ===== src/Telemetry/Requests.antt =====
-- modules/telemetry/telemetry.c: the requests that the command port leaves for the tasks. They are
-- set in the receive interrupt and consumed by the tasks.
use nuedc_control_freertos.Prelude.{ℕ, Bool, false, Option, none, some, ℤ, if◌then◌else◌}

pub record TelemetryDutyRequest : Type 0 where
  pub left_pwm : ℤ
  pub right_pwm : ℤ
  pub hold_ms : ℕ

pub record Requests : Type 0 where
  pub start_request : Bool
  pub stop_request : Bool
  pub duty_request_pending : Bool
  pub duty_request : TelemetryDutyRequest

unfoldable pub consume_start : Requests → Requests × Bool
consume_start r = (record r { start_request = false }, r.start_request)

unfoldable pub consume_stop : Requests → Requests × Bool
consume_stop r = (record r { stop_request = false }, r.stop_request)

unfoldable pub consume_duty : Requests → Requests × Option TelemetryDutyRequest
consume_duty r =
    if r.duty_request_pending
    then (record r { duty_request_pending = false }, some r.duty_request)
    else (r, none)
