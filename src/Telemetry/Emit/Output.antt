-- ===== src/Telemetry/Emit/Output.antt =====
-- Printing ends, on a UART that is no longer busy after so many looks, and keeps the callback.
use nuedc_control_freertos.Prelude.{
  ℕ, List, [], ◌∷◌, Option, some, ◌==◌, length, u16, take, ◌++◌, Bool-cases, inl, inr, ◌≡◌, refl,
  ◌∙◌, Returns, Returns->>=, Returns-weaken,
}
use nuedc_control_freertos.Platform.Uart.{UartDevice, DrvUartPort, write_blocking}
use nuedc_control_freertos.Platform.Uart.Sent.{IsPrompt, write_blocking-Returns}
use nuedc_control_freertos.Telemetry.Uart.{DebugUart, send, printf}
use nuedc_control_freertos.Telemetry.Emit.{print}

-- the callback is the same
abbrev pub IsKept : {S : Type 0} → DebugUart S → DebugUart S → Type 0
IsKept u u' = u'.callback ≡ u.callback

module _ {S : Type 0} (dev : UartDevice) (uart : DrvUartPort) (looks : ℕ) where
  send-Returns :
      (u : DebugUart S) (bytes : Option (List ℕ))
      → IsPrompt dev uart.inst looks
      → Returns (send dev uart looks u bytes) (IsKept u)
  unfolding send
  send-Returns u bytes prompt =
      Returns->>= (λ h. Unit) (IsKept u) (write_blocking dev uart looks bytes u.history) _
        (write_blocking-Returns dev uart looks bytes u.history prompt) (λ h e. refl)

  printf-Returns :
      (u : DebugUart S) (text behind : List ℕ)
      → IsPrompt dev uart.inst looks
      → Returns (printf dev uart looks u text behind) (IsKept u)
  unfolding printf
  printf-Returns u text behind prompt =
      let buf = take 255 text ++ 0 ∷ [] in
      elim (Bool-cases (length text == 0)) [
        | inl none_given ↦ rw none_given refl
        | inr some_given ↦
            rw some_given (send-Returns u (some (take (u16 (length text)) (buf ++ behind))) prompt)
      ]

  pub print-Returns :
      {L : Type 0} (texts : L → List ℕ × List ℕ) (ls : List L) (u : DebugUart S)
      → IsPrompt dev uart.inst looks
      → Returns (print dev uart looks texts ls u) (IsKept u)
  unfolding print
  print-Returns texts [] u prompt = refl
  print-Returns texts (l ∷ ls) u prompt =
      Returns->>= (IsKept u) (IsKept u) (printf dev uart looks u (texts l).0 (texts l).1) _
        (printf-Returns u (texts l).0 (texts l).1 prompt)
        (λ u' same.
          Returns-weaken (IsKept u') (IsKept u) (print dev uart looks texts ls u')
            (print-Returns texts ls u' prompt) (λ u'' same'. same' ∙ same))
