-- ===== src/Platform/Spi/Registers.antt =====
-- What a register access over SPI does as a whole.
use nuedc_control_freertos.Prelude.{
  Returns, Returns-map, Returns-some, ℕ, zero, suc, true, false, Option, none, some, List, [], ◌∷◌,
  ◌≡◌, refl, ap, ◌∙◌, arith, length, replicate, rev_onto, bit_and, bit_or, Bool-cases, inl, inr,
}
use nuedc_control_freertos.Platform.Spi.{
  SpiDevice, DrvSpiBus, History, is_rx_empty, receive, select, deselect, cs_delay, valid, transfer8,
  write_bytes, read_bytes, wait_not_busy, drain_rx, write_selected, read_selected, write_reg8,
  read_reg8,
}
use nuedc_control_freertos.Platform.Spi.Transfer.{
  sent, pin_level, wait_sent, wait_level, transfer8-sent, write_bytes-sent, read_bytes-sent,
  length-read_bytes,
}

-- so many bytes taken out of the receive FIFO, each after a look
unfoldable pub taken : ℕ → ℕ → History → History
taken inst zero h = h
taken inst (suc n) h = taken inst n (receive inst ∷ is_rx_empty inst ∷ h)

-- The receive FIFO is finite: with nothing sent in between, so many reads empty it.
abbrev pub HasDepth : SpiDevice → ℕ → ℕ → Type 0
HasDepth dev inst depth = (h : History) → dev.rx_empty inst (taken inst depth h) ≡ true

module _ (dev : SpiDevice) (cs_cycles : ℕ) (bus : DrvSpiBus) where
  drain_rx-taken :
      (fuel : ℕ) (h : History)
      → dev.rx_empty bus.inst (taken bus.inst fuel h) ≡ true
      → Returns (drain_rx dev cs_cycles bus fuel h) (λ h'.
        (sent h' ≡ sent h)
        × (pin_level bus.cs_port bus.cs_pin h' ≡ pin_level bus.cs_port bus.cs_pin h))
  unfolding drain_rx taken
  drain_rx-taken zero h e = rw e (refl, refl)
  drain_rx-taken (suc fuel) h e = elim (Bool-cases (dev.rx_empty bus.inst h)) [
    | inl empty ↦ rw empty (refl, refl)
    | inr more ↦ rw more (drain_rx-taken fuel (receive bus.inst ∷ is_rx_empty bus.inst ∷ h) e)
  ]

  write_selected-sent :
      (reg : ℕ) (bytes : List ℕ) (h : History)
      → (write_selected dev cs_cycles bus reg bytes h).1 ≡ true
      → sent (write_selected dev cs_cycles bus reg bytes h).0
        ≡ rev_onto (bit_and reg 0x7F ∷ bytes) (sent h)
  unfolding write_selected
  write_selected-sent reg bytes h e =
      let h1 = (transfer8 dev cs_cycles bus (bit_and reg 0x7F) h).0 in
      ground (
        arith,
        transfer8-sent dev cs_cycles bus (bit_and reg 0x7F) h,
        write_bytes-sent dev cs_cycles bus bytes h1,
        wait_sent dev cs_cycles bus (write_bytes dev cs_cycles bus bytes h1).0,
      )

  deselect-level :
      (bytes : Option (List ℕ)) (h : History)
      → valid dev cs_cycles bus bytes ≡ true
      → pin_level bus.cs_port bus.cs_pin (deselect dev cs_cycles bus h) ≡ some true
  unfolding valid deselect cs_delay
  deselect-level none h v = cc
  deselect-level (some []) h v = cc
  deselect-level (some (_ ∷ _)) h v = ground arith

  -- If the receive FIFO has a depth within the fuel, and the chip select is high, then a register
  -- write returns, whether it succeeds or not, and the chip select is high after it.
  pub write_reg8-level :
      (depth reg : ℕ) (bytes : Option (List ℕ)) (h : History)
      → HasDepth dev bus.inst depth
      → pin_level bus.cs_port bus.cs_pin h ≡ some true
      → Returns
          (write_reg8 dev cs_cycles bus depth reg bytes h)
          (λ r. pin_level bus.cs_port bus.cs_pin r.0 ≡ some true)
  unfolding write_reg8
  write_reg8-level depth reg bytes h deep high =
      let h1 = (wait_not_busy dev cs_cycles bus h).0 in
      let waited = wait_level dev cs_cycles bus bus.cs_port bus.cs_pin h in
      elim (Bool-cases (valid dev cs_cycles bus bytes)) [
        | inr bad ↦ rw bad high
        | inl good ↦ elim (Bool-cases (wait_not_busy dev cs_cycles bus h).1) [
          | inr late ↦ rw (good, late) (waited ∙ high)
          | inl idle ↦
              rw (good, idle)
                (Returns-map _ _ (drain_rx dev cs_cycles bus depth h1) _
                  (drain_rx-taken depth h1 (deep h1)) (λ h2 r. deselect-level bytes _ good))
        ]
      ]

  -- The same for a read.
  pub read_reg8-level :
      (depth reg : ℕ) (buffer : Option (List ℕ)) (h : History)
      → HasDepth dev bus.inst depth
      → pin_level bus.cs_port bus.cs_pin h ≡ some true
      → Returns
          (read_reg8 dev cs_cycles bus depth reg buffer h)
          (λ r. pin_level bus.cs_port bus.cs_pin r.0 ≡ some true)
  unfolding read_reg8
  read_reg8-level depth reg buffer h deep high =
      let h1 = (wait_not_busy dev cs_cycles bus h).0 in
      let waited = wait_level dev cs_cycles bus bus.cs_port bus.cs_pin h in
      elim (Bool-cases (valid dev cs_cycles bus buffer)) [
        | inr bad ↦ rw bad high
        | inl good ↦ elim (Bool-cases (wait_not_busy dev cs_cycles bus h).1) [
          | inr late ↦ rw (good, late) (waited ∙ high)
          | inl idle ↦
              rw (good, idle)
                (Returns-map _ _ (drain_rx dev cs_cycles bus depth h1) _
                  (drain_rx-taken depth h1 (deep h1)) (λ h2 r. deselect-level buffer _ good))
        ]
      ]

  read_selected-sent :
      (reg : ℕ) (buffer : List ℕ) (h : History)
      → (read_selected dev cs_cycles bus reg buffer h).1 ≡ true
      → (sent (read_selected dev cs_cycles bus reg buffer h).0
          ≡ rev_onto (bit_or reg 0x80 ∷ replicate (length buffer) 0) (sent h))
        × (length (read_selected dev cs_cycles bus reg buffer h).2 ≡ length buffer)
  unfolding read_selected
  read_selected-sent reg buffer h e =
      let h1 = (transfer8 dev cs_cycles bus (bit_or reg 0x80) h).0 in
      ground (
        arith,
        transfer8-sent dev cs_cycles bus (bit_or reg 0x80) h,
        read_bytes-sent dev cs_cycles bus buffer h1,
        length-read_bytes dev cs_cycles bus buffer h1,
        wait_sent dev cs_cycles bus (read_bytes dev cs_cycles bus buffer h1).0,
      )

  select-sent : (h : History) → sent (select dev cs_cycles bus h) ≡ sent h
  unfolding select cs_delay
  select-sent h = refl

  deselect-sent : (h : History) → sent (deselect dev cs_cycles bus h) ≡ sent h
  unfolding deselect cs_delay
  deselect-sent h = ground arith

  write_reg8-outcome :
      (depth reg : ℕ) (bytes : List ℕ) (h : History)
      → HasDepth dev bus.inst depth
      → Returns
          (write_reg8 dev cs_cycles bus depth reg (some bytes) h)
          (λ r. r.1 ≡ true → sent r.0 ≡ rev_onto (bit_and reg 0x7F ∷ bytes) (sent h))
  unfolding write_reg8
  write_reg8-outcome depth reg bytes h deep =
      let h1 = (wait_not_busy dev cs_cycles bus h).0 in
      let waited = wait_sent dev cs_cycles bus h in
      elim (Bool-cases (valid dev cs_cycles bus (some bytes))) [
        | inr bad ↦ rw bad (λ (ok : false ≡ true). cc)
        | inl good ↦ elim (Bool-cases (wait_not_busy dev cs_cycles bus h).1) [
          | inr late ↦ rw (good, late) (λ (ok : false ≡ true). cc)
          | inl idle ↦
              rw (good, idle)
                (Returns-map _ _ (drain_rx dev cs_cycles bus depth h1) _
                  (drain_rx-taken depth h1 (deep h1))
                  (λ h2 r ok.
                    deselect-sent
                      (write_selected dev cs_cycles bus reg bytes (select dev cs_cycles bus h2)).0
                    ∙ write_selected-sent reg bytes (select dev cs_cycles bus h2) ok
                    ∙ ap (rev_onto (bit_and reg 0x7F ∷ bytes)) (select-sent h2 ∙ r.0 ∙ waited)))
        ]
      ]

  -- A write that succeeds has sent the register with a clear top bit and then the bytes, in order,
  -- and nothing else.
  pub write_reg8-sent :
      (depth reg : ℕ) (bytes : List ℕ) (h h' : History)
      → HasDepth dev bus.inst depth
      → write_reg8 dev cs_cycles bus depth reg (some bytes) h ≡ some (h', true)
      → sent h' ≡ rev_onto (bit_and reg 0x7F ∷ bytes) (sent h)
  write_reg8-sent depth reg bytes h h' deep e =
      Returns-some _ e (write_reg8-outcome depth reg bytes h deep) refl

  read_reg8-outcome :
      (depth reg : ℕ) (buffer : List ℕ) (h : History)
      → HasDepth dev bus.inst depth
      → Returns (read_reg8 dev cs_cycles bus depth reg (some buffer) h) (λ r.
        r.1 ≡ true
        → (sent r.0 ≡ rev_onto (bit_or reg 0x80 ∷ replicate (length buffer) 0) (sent h))
          × (length r.2 ≡ length buffer))
  unfolding read_reg8
  read_reg8-outcome depth reg buffer h deep =
      let h1 = (wait_not_busy dev cs_cycles bus h).0 in
      let waited = wait_sent dev cs_cycles bus h in
      elim (Bool-cases (valid dev cs_cycles bus (some buffer))) [
        | inr bad ↦ rw bad (λ (ok : false ≡ true). cc)
        | inl good ↦ elim (Bool-cases (wait_not_busy dev cs_cycles bus h).1) [
          | inr late ↦ rw (good, late) (λ (ok : false ≡ true). cc)
          | inl idle ↦
              rw (good, idle)
                (Returns-map _ _ (drain_rx dev cs_cycles bus depth h1) _
                  (drain_rx-taken depth h1 (deep h1))
                  (λ h2 r ok.
                    let got = read_selected-sent reg buffer (select dev cs_cycles bus h2) ok in
                    (
                      deselect-sent
                            (read_selected dev cs_cycles bus reg buffer
                              (select dev cs_cycles bus h2)).0
                          ∙ got.0
                          ∙ ap (rev_onto (bit_or reg 0x80 ∷ replicate (length buffer) 0))
                              (select-sent h2 ∙ r.0 ∙ waited),
                      got.1,
                    )))
        ]
      ]

  -- If the receive FIFO has a depth within the fuel, a register read that succeeds has sent the
  -- register with its top bit set and then a zero for each byte, and hands over as many bytes as it
  -- was asked for.
  pub read_reg8-sent :
      (depth reg : ℕ) (buffer got : List ℕ) (h h' : History)
      → HasDepth dev bus.inst depth
      → read_reg8 dev cs_cycles bus depth reg (some buffer) h ≡ some (h', true, got)
      → (sent h' ≡ rev_onto (bit_or reg 0x80 ∷ replicate (length buffer) 0) (sent h))
        × (length got ≡ length buffer)
  read_reg8-sent depth reg buffer got h h' deep e =
      Returns-some _ e (read_reg8-outcome depth reg buffer h deep) refl
