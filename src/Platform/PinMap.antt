-- ===== src/Platform/PinMap.antt =====
-- platform/mspm0g3507/pin_map.h: the board's names for what SysConfig generates. Ports, pins, timers
-- and peripherals are numbers that SysConfig gives; `pwm_motor_inst` has no alias.
use nuedc_control_freertos.Prelude.{ℕ}

pub record PinMap : Type 0 where
  pub pwm_motor_inst : ℕ
  pub pwm_ch_left : ℕ
  pub pwm_ch_right : ℕ
  pub motor_a_dir_port : ℕ
  pub left_ain1_pin : ℕ
  pub left_ain2_pin : ℕ
  pub right_bin1_pin : ℕ
  pub motor_b_dir_port : ℕ
  pub right_bin2_pin : ℕ
  pub enc_left_port : ℕ
  pub enc_left_a_pin : ℕ
  pub enc_left_b_pin : ℕ
  pub enc_right_port : ℕ
  pub enc_right_a_pin : ℕ
  pub enc_right_b_pin : ℕ
  pub imu_spi_inst : ℕ
  pub imu_cs_port : ℕ
  pub imu_cs_pin : ℕ
  pub imu_int_port : ℕ
  pub imu_int_pin : ℕ

-- the seven pins of the line sensor, from left to right, which pin_map.h names too
pub record LinePins : Type 0 where
  pub line_ccd0_port : ℕ
  pub line_ccd0_pin : ℕ
  pub line_ccd1_port : ℕ
  pub line_ccd1_pin : ℕ
  pub line_ccd2_port : ℕ
  pub line_ccd2_pin : ℕ
  pub line_ccd3_port : ℕ
  pub line_ccd3_pin : ℕ
  pub line_ccd4_port : ℕ
  pub line_ccd4_pin : ℕ
  pub line_ccd5_port : ℕ
  pub line_ccd5_pin : ℕ
  pub line_ccd6_port : ℕ
  pub line_ccd6_pin : ℕ
