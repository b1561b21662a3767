-- ===== src/Platform/Uart.antt =====
-- platform/mspm0g3507/drivers/drv_uart.c, over the history of its DriverLib calls, as in
-- Platform.Poll. The wait before a byte has no limit in the source, and runs on fuel.
pub mod Sent
use nuedc_control_freertos.Prelude.{
  ℕ, zero, suc, Bool, not, Option, none, some, ◌>>=◌, List, [], ◌∷◌, ◌==◌, if◌then◌else◌,
}

pub data UartCall : Type 0 where
  enable_rx_interrupt enable_irq is_busy get_pending receive : ℕ → UartCall
  transmit : ℕ → ℕ → UartCall

-- the newest call first
abbrev pub History : Type 0
History = List UartCall

-- What the hardware answers to a call, by the UART and the calls before. `rx_pending` says that the
-- pending interrupt is the one of a received byte.
pub record UartDevice : Type 0 where
  pub busy : ℕ → History → Bool
  pub rx_pending : ℕ → History → Bool
  pub received : ℕ → History → ℕ

pub record DrvUartPort : Type 0 where
  pub inst : ℕ
  pub irqn : ℕ

module _ (dev : UartDevice) (uart : DrvUartPort) where
  unfoldable pub enable_rx : History → History
  enable_rx h =
      if uart.inst == 0 then h else enable_irq uart.irqn ∷ enable_rx_interrupt uart.inst ∷ h

  -- `while (DL_UART_Main_isBusy(uart->inst))`
  unfoldable pub wait_ready : ℕ → History → Option History
  wait_ready zero h = if dev.busy uart.inst h then none else some (is_busy uart.inst ∷ h)
  wait_ready (suc fuel) h =
      let rest = wait_ready fuel (is_busy uart.inst ∷ h) in
      if dev.busy uart.inst h then rest else some (is_busy uart.inst ∷ h)

  unfoldable pub write_bytes : ℕ → List ℕ → History → Option History
  write_bytes fuel [] h = some h
  write_bytes fuel (b ∷ bs) h = do
    h' ← wait_ready fuel h
    write_bytes fuel bs (transmit uart.inst b ∷ h')

  -- The bytes are `data` and `len`; a null pointer is `none`.
  unfoldable pub write_blocking : ℕ → Option (List ℕ) → History → Option History
  write_blocking fuel none h = some h
  write_blocking fuel (some bytes) h = if uart.inst == 0 then some h else write_bytes fuel bytes h

  -- the byte, where there is one
  unfoldable pub read_irq_byte : History → History × Option ℕ
  read_irq_byte h =
      let h' = get_pending uart.inst ∷ h in
      if uart.inst == 0
      then (h, none)
      else if not (dev.rx_pending uart.inst h)
      then (h', none)
      else (receive uart.inst ∷ h', some (dev.received uart.inst h'))
