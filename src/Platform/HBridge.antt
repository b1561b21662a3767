-- ===== src/Platform/HBridge.antt =====
-- platform/mspm0g3507/drivers/drv_hbridge_motor.c. A motor's driver passes the address of its
-- output stage, so the guards on a null pointer are not reached and have no case here.
use nuedc_control_freertos.Prelude.{
  ℕ, Bool, true, false, List, [], ◌∷◌, ◌++◌, ℤ, pos, negsuc, neg_ℤ, ltb_ℤ, is_zero_ℤ, to_i16, wrap,
  if◌then◌else◌,
}
use nuedc_control_freertos.Platform.Calls.{Trace}
use nuedc_control_freertos.Platform.Gpio.{DrvGpioPin, write_raw}
use nuedc_control_freertos.Platform.Pwm
use nuedc_control_freertos.Platform.Pwm.{DrvPwmChannel, set_duty_permille}
pub mod Levels

pub record DrvHBridgeMotor : Type 0 where
  pub pwm : DrvPwmChannel
  pub in1 : DrvGpioPin
  pub in2 : DrvGpioPin
  pub direction : ℤ

-- the limit of this driver is 1000 either way
unfoldable pub clamp_duty : ℤ → ℤ
clamp_duty duty =
    if ltb_ℤ (pos 1000) duty
    then pos 1000
    else (if ltb_ℤ duty (negsuc 999) then negsuc 999 else duty)

unfoldable pub coast : DrvHBridgeMotor → Trace
coast m = set_duty_permille m.pwm 0 ++ (write_raw m.in1 false ++ write_raw m.in2 false)

unfoldable pub brake : DrvHBridgeMotor → Trace
brake m = set_duty_permille m.pwm 0 ++ (write_raw m.in1 true ++ write_raw m.in2 true)

unfoldable pub start : DrvHBridgeMotor → Trace
start m = set_duty_permille m.pwm 0 ++ (coast m ++ Pwm.start m.pwm)

-- the duty with the wiring's sign, for the test `duty > 0`
unfoldable pub wired_duty : DrvHBridgeMotor → ℤ → ℤ
wired_duty m duty =
    if ltb_ℤ (if is_zero_ℤ m.direction then pos 1 else m.direction) (pos 0)
    then to_i16 (neg_ℤ duty)
    else duty

unfoldable pub set_signed_duty : DrvHBridgeMotor → ℤ → Trace
unfolding clamp_duty wired_duty
set_signed_duty m duty =
    let d = clamp_duty duty in
    let w = wired_duty m d in
    if is_zero_ℤ d
    then coast m
    else (if ltb_ℤ (pos 0) w
        then write_raw m.in1 false
          ++ (write_raw m.in2 true ++ set_duty_permille m.pwm (wrap 65536 w))
        else write_raw m.in1 true
          ++ (write_raw m.in2 false ++ set_duty_permille m.pwm (wrap 65536 (neg_ℤ w))))
