-- ===== src/Motor/Board.antt =====
-- modules/motor/bsp_motor.c: the two motors, the clamps, the time of the last command and the
-- safety tick. `tick` is `g_tick_ms`, which `Drv_Time_Millis` reads. The pins and ports of the two
-- motors come from SysConfig, so their configurations are parts of the state.
pub mod Hardware
pub mod Safety
pub mod Bounds
use nuedc_control_freertos.Prelude.{
  ℕ, Bool, true, false, ◌||◌, ◌&&◌, not, List, [], ◌++◌, ℤ, pos, negsuc, ltb_ℤ, is_zero_ℤ, ltb,
  ◌==◌, sub_u32, if◌then◌else◌,
}
use nuedc_control_freertos.Platform.Calls.{Trace}
use nuedc_control_freertos.Platform.Time.{millis}
use nuedc_control_freertos.Platform.QuadEncoder.{DrvQuadEncoder}
use nuedc_control_freertos.Motor.Device
use nuedc_control_freertos.Motor.Device.{DevMotor, DevMotorConfig}

pub record Board : Type 0 where
  pub left : DevMotor  -- s_motor[0]
  pub right : DevMotor  -- s_motor[1]
  pub last_command_ms : ℕ

abbrev pub pwm_max : ℤ
pwm_max = pos 1000

abbrev pub command_timeout_ms : ℕ
command_timeout_ms = 100

unfoldable pub motor_index : ℕ → ℕ
motor_index ch = if ltb ch 2 then ch else 1

unfoldable pub clamp_pwm : ℤ → ℤ
clamp_pwm duty =
    let d = if ltb_ℤ pwm_max duty then pwm_max else duty in
    if ltb_ℤ d (negsuc 999) then negsuc 999 else d

-- `&s_motor[motor_index(ch)]`
unfoldable pub get_device : Board → ℕ → DevMotor
unfolding motor_index
get_device b ch = if motor_index ch == 0 then b.left else b.right

unfoldable pub put_device : Board → ℕ → DevMotor → Board
unfolding motor_index
put_device b ch m = if motor_index ch == 0 then record b { left = m } else record b { right = m }

-- `BSP_Motor_Standby` does nothing: the standby pin is wired to the supply.
unfoldable pub standby : Bool → Trace
standby on = []

unfoldable pub any_running : Board → Bool
any_running b =
    not (is_zero_ℤ (Device.get_duty b.left)) || not (is_zero_ℤ (Device.get_duty b.right))

unfoldable pub refresh_standby : Board → Trace
unfolding standby any_running
refresh_standby b = standby (any_running b)

unfoldable pub init : (ℕ → ℕ → ℕ) → DrvQuadEncoder → DevMotorConfig → DevMotorConfig → Board × Trace
unfolding standby
init read_pins cleared left_config right_config =
    let (l, tl) = Device.start read_pins (Device.init read_pins cleared left_config) in
    let (r, tr) = Device.start read_pins (Device.init read_pins cleared right_config) in
    (record { left = l; right = r; last_command_ms = 0 }, tl ++ (tr ++ standby false))

unfoldable pub set_signed_duty : ℕ → Board → ℕ → ℤ → Board × Trace
unfolding clamp_pwm get_device put_device millis
set_signed_duty tick b ch duty =
    let (m, t) = Device.set_signed_duty (get_device b ch) (clamp_pwm duty) in
    let b' = record (put_device b ch m) { last_command_ms = millis tick } in
    (b', t ++ refresh_standby b')

unfoldable pub forward_only : ℤ → ℤ
forward_only duty =
    let d = if ltb_ℤ pwm_max duty then pwm_max else duty in if ltb_ℤ d (pos 0) then pos 0 else d

unfoldable pub set_duty : ℕ → Board → ℕ → ℤ → Board × Trace
unfolding forward_only
set_duty tick b ch duty = set_signed_duty tick b ch (forward_only duty)

unfoldable pub brake : Board → ℕ → Board × Trace
unfolding get_device put_device
brake b ch =
    let (m, t) = Device.brake (get_device b ch) in
    let b' = put_device b ch m in (b', t ++ refresh_standby b')

-- the two writes of the safety tick
unfoldable pub stop_both : Board → Board × Trace
stop_both b =
    let (l, tl) = Device.set_signed_duty b.left (pos 0) in
    let (r, tr) = Device.set_signed_duty b.right (pos 0) in
    let b' = record b { left = l; right = r } in (b', tl ++ (tr ++ refresh_standby b'))

unfoldable pub safety_tick : Board → ℕ → Board × Trace
unfolding any_running stop_both
safety_tick b now_ms =
    if any_running b && ltb command_timeout_ms (sub_u32 now_ms b.last_command_ms)
    then stop_both b
    else (b, [])
