-- ===== src/Motor/Device.antt =====
-- modules/motor/dev_motor.c. A function on a motor returns the motor and the calls into DriverLib.
-- The board hands over the addresses of its motors; on a pointer each function is `null_guard` of
-- the one given here.
use nuedc_control_freertos.Prelude.{
  ℕ, Bool, true, false, ℤ, pos, ltb_ℤ, is_zero_ℤ, neg_ℤ, to_i16, if◌then◌else◌,
}
use nuedc_control_freertos.Platform.Calls.{Trace}
use nuedc_control_freertos.Platform.HBridge
use nuedc_control_freertos.Platform.HBridge.{DrvHBridgeMotor}
use nuedc_control_freertos.Platform.QuadEncoder
use nuedc_control_freertos.Platform.QuadEncoder.{DrvQuadEncoder, DrvQuadEncoderConfig}

pub record DevMotorConfig : Type 0 where
  pub output : DrvHBridgeMotor
  pub encoder : DrvQuadEncoderConfig
  pub max_duty : ℤ
  pub has_encoder : Bool

pub record DevMotor : Type 0 where
  pub config : DevMotorConfig
  pub encoder : DrvQuadEncoder
  pub duty : ℤ
  pub started : Bool

abbrev pub duty_max_default : ℤ
duty_max_default = pos 1000

unfoldable pub max_duty : DevMotorConfig → ℤ
max_duty c = if ltb_ℤ (pos 0) c.max_duty then c.max_duty else duty_max_default

unfoldable pub clamp_signed : DevMotorConfig → ℤ → ℤ
unfolding max_duty
clamp_signed c duty =
    let limit = max_duty c in
    if ltb_ℤ limit duty
    then limit
    else (if ltb_ℤ duty (to_i16 (neg_ℤ limit)) then to_i16 (neg_ℤ limit) else duty)

-- `memset` clears the encoder, and a motor with no encoder keeps it so.
unfoldable pub init : (ℕ → ℕ → ℕ) → DrvQuadEncoder → DevMotorConfig → DevMotor
unfolding max_duty
init read_pins cleared config = record {
  config = record config { max_duty = max_duty config };
  encoder = if config.has_encoder then QuadEncoder.init read_pins config.encoder else cleared;
  duty = pos 0;
  started = false;
}

unfoldable pub start : (ℕ → ℕ → ℕ) → DevMotor → DevMotor × Trace
start read_pins m = (
  record m {
    duty = pos 0;
    encoder = if m.config.has_encoder then QuadEncoder.reset read_pins m.encoder else m.encoder;
    started = true;
  },
  HBridge.start m.config.output,
)

unfoldable pub set_signed_duty : DevMotor → ℤ → DevMotor × Trace
set_signed_duty m duty =
    let d = clamp_signed m.config duty in
    (
      record m { duty = d },
      (if is_zero_ℤ d
          then HBridge.coast m.config.output
          else HBridge.set_signed_duty m.config.output d),
    )

unfoldable pub set_duty : DevMotor → ℤ → DevMotor × Trace
unfolding set_signed_duty
set_duty m duty = set_signed_duty m (if ltb_ℤ duty (pos 0) then pos 0 else duty)

unfoldable pub coast : DevMotor → DevMotor × Trace
coast m = (record m { duty = pos 0 }, HBridge.coast m.config.output)

unfoldable pub brake : DevMotor → DevMotor × Trace
brake m = (record m { duty = pos 0 }, HBridge.brake m.config.output)

unfoldable pub get_duty : DevMotor → ℤ
get_duty m = m.duty

unfoldable pub poll_encoder : (ℕ → ℕ → ℕ) → DevMotor → DevMotor
poll_encoder read_pins m =
    if m.config.has_encoder then record m { encoder = QuadEncoder.poll read_pins m.encoder } else m

unfoldable pub get_encoder_delta : DevMotor → DevMotor × ℤ
get_encoder_delta m =
    if m.config.has_encoder
    then (let (e, delta) = QuadEncoder.get_delta m.encoder in (record m { encoder = e }, delta))
    else (m, pos 0)

unfoldable pub get_encoder_total : DevMotor → ℤ
get_encoder_total m = if m.config.has_encoder then QuadEncoder.get_total m.encoder else pos 0

unfoldable pub reset_encoder : (ℕ → ℕ → ℕ) → DevMotor → DevMotor
reset_encoder read_pins m =
    if m.config.has_encoder then record m { encoder = QuadEncoder.reset read_pins m.encoder } else m
