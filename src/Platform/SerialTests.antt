-- ===== src/Platform/SerialTests.antt =====
-- Examples of the serial drivers, against a device that answers at once.
use nuedc_control_freertos.Prelude.{
  Returns, ℕ, suc, none, replicate, ◌+◌, ◌-◌, ◌≤◌, Bool, true, false, some, List, [], ◌∷◌, ◌≡◌, ◌⊎◌,
  refl, arith, length, rev_onto, ltb, ◌==◌, bit_or, if◌then◌else◌,
}
use nuedc_control_freertos.Platform.Calls.{set_pins}
use nuedc_control_freertos.Platform.Spi
use nuedc_control_freertos.Platform.Spi.{SpiDevice, DrvSpiBus, pins, transmit, receive}
use nuedc_control_freertos.Platform.Spi.Transfer.{sent, pin_level}
use nuedc_control_freertos.Platform.Spi.Registers.{
  HasDepth, taken, write_reg8-level, read_reg8-sent,
}
use nuedc_control_freertos.Platform.I2c
use nuedc_control_freertos.Platform.I2c.{I2cDevice, DrvI2cBus, I2cStatus, fill_tx}
use nuedc_control_freertos.Platform.I2c.Transfer.{ends_reset}
use nuedc_control_freertos.Platform.I2c.Accesses.{read_reg8-reset}
use nuedc_control_freertos.Platform.Uart
use nuedc_control_freertos.Platform.Uart.{UartDevice, DrvUartPort}
use nuedc_control_freertos.Platform.Uart.Sent
use nuedc_control_freertos.Platform.Uart.Sent.{IsPrompt, looked}
use nuedc_control_freertos.Telemetry.RttLog
use nuedc_control_freertos.Telemetry.Uart.{DebugUart, printf}
use nuedc_control_freertos.Telemetry.Uart.Printf.{printf-Handed}
use nuedc_control_freertos.Platform.Poll.{wait_while}

-- the bytes in a receive FIFO of four places
abbrev waiting : Spi.History → ℕ
waiting [] = 0
waiting (transmit _ _ ∷ h) = if ltb (waiting h) 4 then waiting h + 1 else 4
waiting (receive _ ∷ h) = waiting h - 1
waiting (_ ∷ h) = waiting h

waiting_bound : (h : Spi.History) → waiting h ≤ 4
waiting_bound [] = omega arith
waiting_bound (transmit _ _ ∷ h) = ground (arith, waiting_bound h)
waiting_bound (receive _ ∷ h) = omega (arith, waiting_bound h)
waiting_bound (pins _ ∷ h) = waiting_bound h
waiting_bound (Spi.delay_cycles _ ∷ h) = waiting_bound h
waiting_bound (Spi.is_busy _ ∷ h) = waiting_bound h
waiting_bound (Spi.is_tx_full _ ∷ h) = waiting_bound h
waiting_bound (Spi.is_rx_empty _ ∷ h) = waiting_bound h

abbrev echo : SpiDevice
echo = record {
  busy = λ inst h. false;
  tx_full = λ inst h. false;
  rx_empty = λ inst h. waiting h == 0;
  received = λ inst h. 7;
}

echo-HasDepth : HasDepth echo 1 4
unfolding taken
echo-HasDepth h = ground (arith, waiting_bound h)

abbrev spi_bus : DrvSpiBus
spi_bus = record { inst = 1; cs_port = 2; cs_pin = 8; wait_limit = 5 }

abbrev high : Spi.History
high = pins (set_pins 2 8) ∷ []

write_reg8-level_example :
    Returns
      (Spi.write_reg8 echo 64 spi_bus 4 0x21 (some (1 ∷ 2 ∷ [])) high)
      (λ r. pin_level 2 8 r.0 ≡ some true)
write_reg8-level_example =
    write_reg8-level echo 64 spi_bus 4 0x21 (some (1 ∷ 2 ∷ [])) high echo-HasDepth refl

abbrev sevens : List ℕ
sevens = 7 ∷ 7 ∷ []

abbrev after_read : Spi.History
after_read =
    Spi.deselect echo 64 spi_bus
      (Spi.read_selected echo 64 spi_bus 0x21 (0 ∷ 0 ∷ []) (
        Spi.select echo 64 spi_bus
          (Spi.is_rx_empty 1 ∷ (Spi.wait_not_busy echo 64 spi_bus high).0))).0

read_reg8-sent_example :
    (sent after_read ≡ rev_onto (bit_or 0x21 0x80 ∷ 0 ∷ 0 ∷ []) []) × (length sevens ≡ 2)
unfolding Spi.read_reg8 Spi.wait_limit wait_while
read_reg8-sent_example =
    read_reg8-sent echo 64 spi_bus 4 0x21 (0 ∷ 0 ∷ []) sevens high after_read echo-HasDepth refl

-- a controller that is idle until something starts, and then reports an error
abbrev status : Bool → I2cStatus
status error = record { error = error; idle = true; busy = false; busy_bus = false }

abbrev ready : Bool → I2cDevice
ready error = record {
  status = λ inst h. status error;
  filled = λ inst bytes h. length bytes;
  rx_empty = λ inst h. false;
  received = λ inst h. 7;
}

abbrev i2c_bus : DrvI2cBus
i2c_bus = record { inst = 1; wait_limit = 5; tx_fifo_bytes = 0 }

read_reg8-reset_example :
    ((I2c.read_reg8 (ready true) i2c_bus 0x3C 0x10 (some (0 ∷ 0 ∷ [])) []).0 ≡ [])
    ⊎ (ends_reset (I2c.read_reg8 (ready true) i2c_bus 0x3C 0x10 (some (0 ∷ 0 ∷ [])) []).0 ≡ true)
unfolding I2c.read_reg8 I2c.wait_limit
read_reg8-reset_example = read_reg8-reset (ready true) i2c_bus 0x3C 0x10 (0 ∷ 0 ∷ []) [] refl

-- a UART that is busy for two looks at a time
abbrev looks_since : Uart.History → ℕ
looks_since [] = 0
looks_since (Uart.is_busy _ ∷ h) = suc (looks_since h)
looks_since (_ ∷ h) = 0

abbrev uart_device : UartDevice
uart_device = record {
  busy = λ i h. ltb (looks_since h) 2;
  rx_pending = λ i h. true;
  received = λ i h. 65;
}

uart_device-IsPrompt : IsPrompt uart_device 1 2
unfolding looked
uart_device-IsPrompt h = ground arith

abbrev debug_uart : DebugUart ℕ
debug_uart = record {
  log = record { buffer = replicate 16 0; size = 16; wr_off = 0; rd_off = 0 };
  history = [];
  callback = none;
}

printf-Handed_example :
    Returns
      (printf uart_device (record { inst = 1; irqn = 7 }) 2 debug_uart (72 ∷ 105 ∷ []) (9 ∷ 9 ∷ []))
      (λ u.
        (Sent.sent u.history ≡ 105 ∷ 72 ∷ [])
        × (u.log ≡ RttLog.write debug_uart.log (some (72 ∷ 105 ∷ []))))
printf-Handed_example =
    printf-Handed uart_device (record { inst = 1; irqn = 7 }) 2 debug_uart (72 ∷ 105 ∷ [])
      (9 ∷ 9 ∷ []) refl uart_device-IsPrompt refl (omega arith)
