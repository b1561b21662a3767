-- ===== src/Platform/Uart/Sent.antt =====
-- What a UART sends.
use nuedc_control_freertos.Prelude.{
  ℕ, zero, suc, false, some, List, [], ◌∷◌, ◌≡◌, refl, rev_onto, Bool-cases, inl, inr, ◌==◌,
  Returns, Returns->>=, Returns-weaken, Option, none,
}
use nuedc_control_freertos.Platform.Uart.{
  UartDevice, DrvUartPort, History, is_busy, transmit, wait_ready, write_bytes, write_blocking,
}

-- the bytes sent, the last one first
abbrev pub sent : History → List ℕ
sent [] = []
sent (transmit _ b ∷ h) = b ∷ sent h
sent (_ ∷ h) = sent h

-- so many looks
unfoldable pub looked : ℕ → ℕ → History → History
looked inst zero h = h
looked inst (suc n) h = looked inst n (is_busy inst ∷ h)

-- A byte takes a limited time to send: the UART is no longer busy after so many looks.
abbrev pub IsPrompt : UartDevice → ℕ → ℕ → Type 0
IsPrompt dev inst looks = (h : History) → dev.busy inst (looked inst looks h) ≡ false

module _ (dev : UartDevice) (uart : DrvUartPort) where
  wait_ready-sent :
      (fuel : ℕ) (h : History)
      → dev.busy uart.inst (looked uart.inst fuel h) ≡ false
      → Returns (wait_ready dev uart fuel h) (λ h'. sent h' ≡ sent h)
  unfolding wait_ready looked
  wait_ready-sent zero h e = rw e refl
  wait_ready-sent (suc fuel) h e = elim (Bool-cases (dev.busy uart.inst h)) [
    | inl wait ↦ rw wait (wait_ready-sent fuel (is_busy uart.inst ∷ h) e)
    | inr free ↦ rw free refl
  ]

  pub write_bytes-sent :
      (fuel : ℕ) (bytes : List ℕ) (h : History)
      → IsPrompt dev uart.inst fuel
      → Returns (write_bytes dev uart fuel bytes h) (λ h'. sent h' ≡ rev_onto bytes (sent h))
  unfolding write_bytes
  write_bytes-sent fuel [] h prompt = refl
  write_bytes-sent fuel (b ∷ bs) h prompt =
      Returns->>= (λ h'. sent h' ≡ sent h) (λ h'. sent h' ≡ rev_onto (b ∷ bs) (sent h))
        (wait_ready dev uart fuel h) _ (wait_ready-sent fuel h (prompt h))
        (λ h' e. rw⁻¹ e (write_bytes-sent fuel bs (transmit uart.inst b ∷ h') prompt))

  -- On a UART that is there and no longer busy after so many looks, a write returns and has sent the
  -- bytes in their order.
  pub write_blocking-sent :
      (fuel : ℕ) (bytes : List ℕ) (h : History)
      → (uart.inst == 0) ≡ false
      → IsPrompt dev uart.inst fuel
      → Returns
          (write_blocking dev uart fuel (some bytes) h)
          (λ h'. sent h' ≡ rev_onto bytes (sent h))
  unfolding write_blocking
  write_blocking-sent fuel bytes h there prompt = rw there (write_bytes-sent fuel bytes h prompt)

  -- on any UART that is no longer busy after so many looks, also one that is not there
  pub write_blocking-Returns :
      (fuel : ℕ) (bytes : Option (List ℕ)) (h : History)
      → IsPrompt dev uart.inst fuel
      → Returns (write_blocking dev uart fuel bytes h) (λ h'. Unit)
  unfolding write_blocking
  write_blocking-Returns fuel none h prompt = tt
  write_blocking-Returns fuel (some bytes) h prompt = elim (Bool-cases (uart.inst == 0)) [
    | inl gone ↦ rw gone tt
    | inr there ↦ rw there (
        Returns-weaken (λ h'. sent h' ≡ rev_onto bytes (sent h)) (λ h'. Unit)
          (write_bytes dev uart fuel bytes h) (write_bytes-sent fuel bytes h prompt) (λ h' e. tt))
  ]
