-- ===== src/Platform/Spi/Transfer.antt =====
-- What the parts of an SPI access send, and what they leave of the chip select.
use nuedc_control_freertos.Prelude.{
  ℕ, Bool, true, false, ◌&&◌, Option, none, some, List, [], ◌∷◌, ◌≡◌, refl, arith, length,
  replicate, rev_onto, ◌==◌, if◌then◌else◌,
}
use nuedc_control_freertos.Platform.Calls.{set_pins, clear_pins}
use nuedc_control_freertos.Platform.Poll.{wait_while, wait_while-keeps}
use nuedc_control_freertos.Platform.Spi.{
  SpiDevice, DrvSpiBus, History, pins, is_busy, is_tx_full, is_rx_empty, transmit, wait_limit,
  transfer8, write_bytes, read_bytes, wait_not_busy,
}

abbrev pub is_some : Option ℕ → Bool
is_some none = false
is_some (some _) = true

-- the bytes sent, the last one first
abbrev pub sent : History → List ℕ
sent [] = []
sent (transmit _ b ∷ h) = b ∷ sent h
sent (_ ∷ h) = sent h

-- the level of a pin that the last set or clear of it asked for, if there is one
abbrev pub pin_level : ℕ → ℕ → History → Option Bool
pin_level port pin [] = none
pin_level port pin (pins (set_pins q p) ∷ h) =
    if port == q && pin == p then some true else pin_level port pin h
pin_level port pin (pins (clear_pins q p) ∷ h) =
    if port == q && pin == p then some false else pin_level port pin h
pin_level port pin (_ ∷ h) = pin_level port pin h

module _ (dev : SpiDevice) (cs_cycles : ℕ) (bus : DrvSpiBus) where
  pub wait_sent : (h : History) → sent (wait_not_busy dev cs_cycles bus h).0 ≡ sent h
  unfolding wait_not_busy
  wait_sent h = wait_while-keeps sent (is_busy bus.inst) (λ h. refl) _ _ h

  pub wait_level :
      (port pin : ℕ) (h : History)
      → pin_level port pin (wait_not_busy dev cs_cycles bus h).0 ≡ pin_level port pin h
  unfolding wait_not_busy
  wait_level port pin h = wait_while-keeps (pin_level port pin) (is_busy bus.inst) (λ h. refl) _ _ h

  pub transfer8-sent :
      (tx : ℕ) (h : History)
      → is_some (transfer8 dev cs_cycles bus tx h).1 ≡ true
      → sent (transfer8 dev cs_cycles bus tx h).0 ≡ tx ∷ sent h
  unfolding transfer8
  transfer8-sent tx h e =
      let (h1, free) = wait_while (is_tx_full bus.inst) (dev.tx_full bus.inst) (wait_limit bus) h in
      ground (
        arith,
        wait_while-keeps sent (is_tx_full bus.inst) (λ h. refl) (dev.tx_full bus.inst)
            (wait_limit bus) h,
        wait_while-keeps sent (is_rx_empty bus.inst) (λ h. refl) (dev.rx_empty bus.inst)
            (wait_limit bus) (transmit bus.inst tx ∷ h1),
      )

  pub transfer8-level :
      (port pin tx : ℕ) (h : History)
      → pin_level port pin (transfer8 dev cs_cycles bus tx h).0 ≡ pin_level port pin h
  unfolding transfer8
  transfer8-level port pin tx h =
      let (h1, free) = wait_while (is_tx_full bus.inst) (dev.tx_full bus.inst) (wait_limit bus) h in
      ground (
        arith,
        wait_while-keeps (pin_level port pin) (is_tx_full bus.inst) (λ h. refl)
            (dev.tx_full bus.inst) (wait_limit bus) h,
        wait_while-keeps (pin_level port pin) (is_rx_empty bus.inst) (λ h. refl)
            (dev.rx_empty bus.inst) (wait_limit bus) (transmit bus.inst tx ∷ h1),
      )

  pub write_bytes-sent :
      (bs : List ℕ) (h : History)
      → (write_bytes dev cs_cycles bus bs h).1 ≡ true
      → sent (write_bytes dev cs_cycles bus bs h).0 ≡ rev_onto bs (sent h)
  unfolding write_bytes
  write_bytes-sent [] h e = refl
  write_bytes-sent (b ∷ bs) h e =
      let h' = (transfer8 dev cs_cycles bus b h).0 in
      ground (arith, transfer8-sent b h, write_bytes-sent bs h')

  pub write_bytes-level :
      (port pin : ℕ) (bs : List ℕ) (h : History)
      → pin_level port pin (write_bytes dev cs_cycles bus bs h).0 ≡ pin_level port pin h
  unfolding write_bytes
  write_bytes-level port pin [] h = refl
  write_bytes-level port pin (b ∷ bs) h =
      let h' = (transfer8 dev cs_cycles bus b h).0 in
      ground (arith, transfer8-level port pin b h, write_bytes-level port pin bs h')

  pub read_bytes-sent :
      (olds : List ℕ) (h : History)
      → (read_bytes dev cs_cycles bus olds h).1 ≡ true
      → sent (read_bytes dev cs_cycles bus olds h).0 ≡ rev_onto (replicate (length olds) 0) (sent h)
  unfolding read_bytes
  read_bytes-sent [] h e = refl
  read_bytes-sent (b ∷ bs) h e =
      let h' = (transfer8 dev cs_cycles bus 0 h).0 in
      ground (arith, transfer8-sent 0 h, read_bytes-sent bs h')

  pub read_bytes-level :
      (port pin : ℕ) (olds : List ℕ) (h : History)
      → pin_level port pin (read_bytes dev cs_cycles bus olds h).0 ≡ pin_level port pin h
  unfolding read_bytes
  read_bytes-level port pin [] h = refl
  read_bytes-level port pin (b ∷ bs) h =
      let h' = (transfer8 dev cs_cycles bus 0 h).0 in
      ground (arith, transfer8-level port pin 0 h, read_bytes-level port pin bs h')

  -- a read fills the buffer and no more
  pub length-read_bytes :
      (olds : List ℕ) (h : History) → length (read_bytes dev cs_cycles bus olds h).2 ≡ length olds
  unfolding read_bytes
  length-read_bytes [] h = refl
  length-read_bytes (b ∷ bs) h =
      let h' = (transfer8 dev cs_cycles bus 0 h).0 in ground (arith, length-read_bytes bs h')
