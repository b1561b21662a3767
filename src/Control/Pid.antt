-- ===== src/Control/Pid.antt =====
-- common/pid.c, over an interface of floating-point operations.
pub mod Limits
use nuedc_control_freertos.Prelude.{Bool, if◌then◌else◌}
use nuedc_control_freertos.Control.Floats.{Floats}

pub record Pid (F : Type 0) : Type 0 where
  pub kp : F
  pub ki : F
  pub kd : F
  pub integral : F
  pub prev_err : F
  pub last_setpoint : F
  pub last_measure : F
  pub last_error : F
  pub last_p : F
  pub last_i : F
  pub last_d : F
  pub last_deriv : F
  pub last_raw_output : F
  pub last_output : F
  pub out_min : F
  pub out_max : F

module _ (fl : Floats) where
  open fl use {Float, lit, add, sub, mul, div, neg, fabs, fmax, lt}

  abbrev pub zero_f : Float
  zero_f = lit 0 0

  unfoldable pub init : Float → Float → Float → Float → Float → Pid Float
  init kp ki kd omin omax = record {
    kp = kp;
    ki = ki;
    kd = kd;
    integral = zero_f;
    prev_err = zero_f;
    last_setpoint = zero_f;
    last_measure = zero_f;
    last_error = zero_f;
    last_p = zero_f;
    last_i = zero_f;
    last_d = zero_f;
    last_deriv = zero_f;
    last_raw_output = zero_f;
    last_output = zero_f;
    out_min = omin;
    out_max = omax;
  }

  -- an upper limit, then a lower one, as two tests in a row
  unfoldable pub limit : Float → Float → Float → Float
  limit lo hi x = let y = if lt hi x then hi else x in if lt y lo then lo else y

  -- the test that the integral gain counts, `fabsf(ki) > 1e-8f`
  unfoldable pub integrates : Pid Float → Bool
  integrates p = lt (lit 1 8) (fabs p.ki)

  unfoldable pub i_limit : Pid Float → Float
  i_limit p = div (fmax (fabs p.out_min) (fabs p.out_max)) (fabs p.ki)

  unfoldable pub next_integral : Pid Float → Float → Float
  unfolding limit integrates i_limit
  next_integral p err =
      let sum = add p.integral err in
      if integrates p then limit (neg (i_limit p)) (i_limit p) sum else sum

  unfoldable pub update : Pid Float → Float → Float → Pid Float × Float
  unfolding limit next_integral
  update p setpoint measure =
      let err = sub setpoint measure in
      let deriv = sub err p.prev_err in
      let integral = next_integral p err in
      let raw = add (add (mul p.kp err) (mul p.ki integral)) (mul p.kd deriv) in
      let out = limit p.out_min p.out_max raw in
      (
        record p {
          integral = integral;
          prev_err = err;
          last_setpoint = setpoint;
          last_measure = measure;
          last_error = err;
          last_p = mul p.kp err;
          last_i = mul p.ki integral;
          last_d = mul p.kd deriv;
          last_deriv = deriv;
          last_raw_output = raw;
          last_output = out;
        },
        out,
      )

  unfoldable pub set_gains : Pid Float → Float → Float → Float → Pid Float
  set_gains p kp ki kd = record p { kp = kp; ki = ki; kd = kd }

  unfoldable pub reset : Pid Float → Pid Float
  reset p = record p {
    integral = zero_f;
    prev_err = zero_f;
    last_setpoint = zero_f;
    last_measure = zero_f;
    last_error = zero_f;
    last_p = zero_f;
    last_i = zero_f;
    last_d = zero_f;
    last_deriv = zero_f;
    last_raw_output = zero_f;
    last_output = zero_f;
  }
