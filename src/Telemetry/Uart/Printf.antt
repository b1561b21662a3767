-- ===== src/Telemetry/Uart/Printf.antt =====
-- What a formatted text sends.
use mathlib.Core.List.{append_assoc}
use nuedc_control_freertos.Prelude.{
  ℕ, zero, suc, ◌≤◌, false, some, List, [], ◌∷◌, ◌++◌, length, take, ◌==◌, ◌≡◌, refl, ap, ◌∙◌,
  arith, u16, rev_onto, Returns, Returns->>=,
}
use nuedc_control_freertos.Platform.Uart.{UartDevice, DrvUartPort, write_blocking}
use nuedc_control_freertos.Platform.Uart.Sent.{sent, IsPrompt, write_blocking-sent}
use nuedc_control_freertos.Telemetry.RttLog
use nuedc_control_freertos.Telemetry.Uart.{DebugUart, send, printf}

take_all : {A : Type 0} (n : ℕ) (xs : List A) → length xs ≤ n → take n xs ≡ xs
take_all zero [] short = refl
take_all zero (x ∷ xs) short = absurd (omega arith)
take_all (suc n) [] short = refl
take_all (suc n) (x ∷ xs) short = ap (λ ys. x ∷ ys) (take_all n xs (omega arith))

take-append : {A : Type 0} (xs ys : List A) → take (length xs) (xs ++ ys) ≡ xs
take-append [] ys = refl
take-append (x ∷ xs) ys = ap (λ zs. x ∷ zs) (take-append xs ys)

handed :
    (text behind : List ℕ)
    → length text ≤ 255
    → take (u16 (length text)) ((take 255 text ++ 0 ∷ []) ++ behind) ≡ text
handed text behind short =
    let fits : u16 (length text) ≡ length text = omega arith in
    ap (λ n. take n ((take 255 text ++ 0 ∷ []) ++ behind)) fits
    ∙ ap (λ t. take (length text) ((t ++ 0 ∷ []) ++ behind)) (take_all 255 text short)
    ∙ ap (take (length text)) (append_assoc text (0 ∷ []) behind)
    ∙ take-append text (0 ∷ behind)

module _ (dev : UartDevice) (uart : DrvUartPort) {S : Type 0} where
  abbrev Handed : List ℕ → DebugUart S → DebugUart S → Type 0
  Handed text u u' =
      (sent u'.history ≡ rev_onto text (sent u.history)) × (u'.log ≡ RttLog.write u.log (some text))

  send-Handed :
      (fuel : ℕ) (u : DebugUart S) (text : List ℕ)
      → (uart.inst == 0) ≡ false
      → IsPrompt dev uart.inst fuel
      → Returns (send dev uart fuel u (some text)) (Handed text u)
  unfolding send
  send-Handed fuel u text there prompt =
      Returns->>= (λ h. sent h ≡ rev_onto text (sent u.history)) (Handed text u)
        (write_blocking dev uart fuel (some text) u.history) _
        (write_blocking-sent dev uart fuel text u.history there prompt) (λ h e. (e, refl))

  printf-send :
      (fuel : ℕ) (u : DebugUart S) (text behind : List ℕ)
      → (length text == 0) ≡ false
      → length text ≤ 255
      → printf dev uart fuel u text behind ≡ send dev uart fuel u (some text)
  unfolding printf
  printf-send fuel u text behind some_text short =
      rw some_text (ap (λ t. send dev uart fuel u (some t)) (handed text behind short))

  -- A text of 1 to 255 bytes goes out as it is, whatever stands behind the buffer, and the same bytes
  -- are given to the log, on a UART that is there and no longer busy after so many looks.
  pub printf-Handed :
      (fuel : ℕ) (u : DebugUart S) (text behind : List ℕ)
      → (uart.inst == 0) ≡ false
      → IsPrompt dev uart.inst fuel
      → (length text == 0) ≡ false
      → length text ≤ 255
      → Returns (printf dev uart fuel u text behind) (Handed text u)
  printf-Handed fuel u text behind there prompt some_text short =
      rw (printf-send fuel u text behind some_text short) (send-Handed fuel u text there prompt)
