-- ===== src/Telemetry/Uart.antt =====
-- modules/telemetry/bsp_uart.c: the debug UART and the copy of what it sends in the debug log. The
-- text that `vsnprintf` makes is an argument, and so is what stands in memory behind the buffer.
pub mod Printf
use mathlib.Core.List.{append_assoc}
use nuedc_control_freertos.Prelude.{
  ℕ, zero, suc, ◌≤◌, Bool, false, Option, none, some, ◌>>=◌, List, [], ◌∷◌, ◌++◌, ◌-◌, length, take,
  ◌==◌, ◌≡◌, refl, ap, ◌∙◌, arith, u16, rev_onto, if◌then◌else◌, Returns, Returns->>=,
}
use nuedc_control_freertos.Platform.Uart
use nuedc_control_freertos.Platform.Uart.{UartDevice, DrvUartPort, read_irq_byte, write_blocking}
use nuedc_control_freertos.Platform.Uart.Sent.{sent, IsPrompt, write_blocking-sent}
use nuedc_control_freertos.Telemetry.RttLog
use nuedc_control_freertos.Telemetry.RttLog.{RttBufferUp}

-- the log and the UART; `S` is the state that the callback works on
pub record DebugUart (S : Type 0) : Type 0 where
  pub log : RttBufferUp
  pub history : Uart.History
  pub callback : Option (ℕ → S → S)

abbrev pub buf_len : ℕ
buf_len = 256

module _ (dev : UartDevice) (uart : DrvUartPort) {S : Type 0} where
  unfoldable pub init : DebugUart S → DebugUart S
  init u = record u { history = Uart.enable_rx dev uart u.history }

  unfoldable pub set_rx_callback : DebugUart S → Option (ℕ → S → S) → DebugUart S
  set_rx_callback u cb = record u { callback = cb }

  unfoldable pub send : ℕ → DebugUart S → Option (List ℕ) → Option (DebugUart S)
  send fuel u bytes = do
    h ← write_blocking dev uart fuel bytes u.history
    some (record u { log = RttLog.write u.log bytes; history = h })

  unfoldable pub printf : ℕ → DebugUart S → List ℕ → List ℕ → Option (DebugUart S)
  printf fuel u text behind =
      let buf = take (buf_len - 1) text ++ 0 ∷ [] in
      let n = length text in
      if n == 0 then some u else send fuel u (some (take (u16 n) (buf ++ behind)))

  unfoldable pub irq_handler : DebugUart S → S → DebugUart S × S
  irq_handler u s =
      let (h, byte) = read_irq_byte dev uart u.history in
      let u' : DebugUart S = record u { history = h } in
      elim byte [
        | none ↦ (u', s)
        | some b ↦ elim u.callback [ none ↦ (u', s) | some cb ↦ (u', cb b s) ]
      ]
