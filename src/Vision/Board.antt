-- ===== src/Vision/Board.antt =====
-- modules/vision/bsp_k230.c, with the UART of the pin map, which has no reset and no ready pin.
use nuedc_control_freertos.Prelude.{ℕ, Bool, false, Option, none, some, ◌>>=◌, List}
use nuedc_control_freertos.Platform.Uart
use nuedc_control_freertos.Platform.Uart.{UartDevice, DrvUartPort, read_irq_byte, write_blocking}

-- the history of the UART; `S` is the state that the callback works on
pub record K230 (S : Type 0) : Type 0 where
  pub history : Uart.History
  pub callback : Option (ℕ → S → S)

unfoldable pub is_ready : Bool
is_ready = false

module _ (dev : UartDevice) (uart : DrvUartPort) {S : Type 0} where
  unfoldable pub init : K230 S → K230 S
  init k = record k { history = Uart.enable_rx dev uart k.history }

  unfoldable pub set_rx_callback : K230 S → Option (ℕ → S → S) → K230 S
  set_rx_callback k cb = record k { callback = cb }

  unfoldable pub send : ℕ → K230 S → Option (List ℕ) → Option (K230 S)
  send fuel k bytes = do
    h ← write_blocking dev uart fuel bytes k.history
    some (record k { history = h })

  unfoldable pub irq_handler : K230 S → S → K230 S × S
  irq_handler k s =
      let (h, byte) = read_irq_byte dev uart k.history in
      let k' : K230 S = record k { history = h } in
      elim byte [
        | none ↦ (k', s)
        | some b ↦ elim k.callback [ none ↦ (k', s) | some cb ↦ (k', cb b s) ]
      ]
