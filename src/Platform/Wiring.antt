-- ===== src/Platform/Wiring.antt =====
-- What the board modules make of the pin map: the motors and encoders of modules/motor/bsp_motor.c and
-- modules/encoder/bsp_encoder.c, the sensor's bus of modules/imu/bsp_imu.c and the line sensor of
-- modules/line_sensor/bsp_adc.c.
use nuedc_control_freertos.Prelude.{
  ℕ, Bool, true, false, not, List, [], ◌∷◌, pos, negsuc, bit_and, ◌==◌,
}
use nuedc_control_freertos.Platform.PinMap.{PinMap, LinePins}
use nuedc_control_freertos.Platform.Gpio.{DrvGpioPin}
use nuedc_control_freertos.Platform.Pwm.{active_low}
use nuedc_control_freertos.Platform.Spi.{DrvSpiBus, default_wait_limit}
use nuedc_control_freertos.Motor.Device.{DevMotorConfig}
use nuedc_control_freertos.Encoder.{Pins}

abbrev high_pin : ℕ → ℕ → DrvGpioPin
high_pin port pin = record { port = port; pin = pin; active_low = false }

abbrev pub left_motor_config : PinMap → DevMotorConfig
left_motor_config p = record {
  output = record {
    pwm = record {
      timer = p.pwm_motor_inst;
      channel = p.pwm_ch_left;
      period_ticks = 1000;
      polarity = active_low;
    };
    in1 = high_pin p.motor_a_dir_port p.left_ain1_pin;
    in2 = high_pin p.motor_a_dir_port p.left_ain2_pin;
    direction = negsuc 0;
  };
  encoder = record {
    phase_a = high_pin p.enc_left_port p.enc_left_a_pin;
    phase_b = high_pin p.enc_left_port p.enc_left_b_pin;
    direction = pos 1;
  };
  max_duty = pos 1000;
  has_encoder = true;
}

abbrev pub right_motor_config : PinMap → DevMotorConfig
right_motor_config p = record {
  output = record {
    pwm = record {
      timer = p.pwm_motor_inst;
      channel = p.pwm_ch_right;
      period_ticks = 1000;
      polarity = active_low;
    };
    in1 = high_pin p.motor_a_dir_port p.right_bin1_pin;
    in2 = high_pin p.motor_b_dir_port p.right_bin2_pin;
    direction = negsuc 0;
  };
  encoder = record {
    phase_a = high_pin p.enc_right_port p.enc_right_a_pin;
    phase_b = high_pin p.enc_right_port p.enc_right_b_pin;
    direction = pos 1;
  };
  max_duty = pos 1000;
  has_encoder = true;
}

-- the phases of the encoders that bsp_encoder.c reads
abbrev pub encoder_pins : PinMap → Pins
encoder_pins p = record {
  left_port = p.enc_left_port;
  left_a = p.enc_left_a_pin;
  left_b = p.enc_left_b_pin;
  right_port = p.enc_right_port;
  right_a = p.enc_right_a_pin;
  right_b = p.enc_right_b_pin;
}

-- `BSP_IMU_GetBus`
unfoldable pub get_bus : PinMap → DrvSpiBus
get_bus p = record {
  inst = p.imu_spi_inst;
  cs_port = p.imu_cs_port;
  cs_pin = p.imu_cs_pin;
  wait_limit = default_wait_limit;
}

-- `BSP_IMU_DataReady`, by what a read of the pins gives
unfoldable pub data_ready : (ℕ → ℕ → ℕ) → PinMap → Bool
data_ready read_pins p = not (bit_and (read_pins p.imu_int_port p.imu_int_pin) p.imu_int_pin == 0)

-- the channels of `s_line_sensors`
abbrev pub line_channels : LinePins → List DrvGpioPin
line_channels l =
    high_pin l.line_ccd0_port l.line_ccd0_pin
    ∷ high_pin l.line_ccd1_port l.line_ccd1_pin
    ∷ high_pin l.line_ccd2_port l.line_ccd2_pin
    ∷ high_pin l.line_ccd3_port l.line_ccd3_pin
    ∷ high_pin l.line_ccd4_port l.line_ccd4_pin
    ∷ high_pin l.line_ccd5_port l.line_ccd5_pin
    ∷ high_pin l.line_ccd6_port l.line_ccd6_pin
    ∷ []
