-- ===== src/Platform/I2c/Transfer.antt =====
-- What the waits of the I2C driver leave alone, and how they end.
use nuedc_control_freertos.Prelude.{
  ℕ, zero, suc, ◌+◌, ◌≤◌, Bool, true, false, List, [], ◌∷◌, ◌≡◌, refl, ap, arith, length, take,
  ◌==◌, if◌then◌else◌,
}
use nuedc_control_freertos.Platform.I2c.{
  I2cDevice, DrvI2cBus, History, get_status, reset_transfer, flush_tx, fill_tx, start_transfer,
  wait_limit, valid_bus, wait_loop, wait_idle,
}

-- the bytes last put into the transmit FIFO of a controller
abbrev pub last_fill : ℕ → History → List ℕ
last_fill inst [] = []
last_fill inst (fill_tx i bytes ∷ h) = if i == inst then bytes else last_fill inst h
last_fill inst (flush_tx i ∷ h) = if i == inst then [] else last_fill inst h
last_fill inst (_ ∷ h) = last_fill inst h

-- The writes that a controller has started, the last one first: the address, and as many bytes of
-- its FIFO as the length of the transfer says.
abbrev pub packets : ℕ → History → List (ℕ × List ℕ)
packets inst [] = []
packets inst (start_transfer i addr len ∷ h) =
    if i == inst then (addr, take len (last_fill inst h)) ∷ packets inst h else packets inst h
packets inst (_ ∷ h) = packets inst h

pub take_all : (xs : List ℕ) → take (length xs) xs ≡ xs
take_all [] = refl
take_all (x ∷ xs) = ap (λ t. x ∷ t) (take_all xs)

-- the last call has reset the transfer
abbrev pub ends_reset : History → Bool
ends_reset (reset_transfer _ ∷ _) = true
ends_reset _ = false

module _ (dev : I2cDevice) (bus : DrvI2cBus) where
  wait_loop-keeps :
      (timeout : ℕ) (h : History)
      → (packets bus.inst (wait_loop dev bus timeout h).0 ≡ packets bus.inst h)
        × (last_fill bus.inst (wait_loop dev bus timeout h).0 ≡ last_fill bus.inst h)
  unfolding wait_loop
  wait_loop-keeps zero h = (refl, refl)
  wait_loop-keeps (suc timeout) h =
      ground (arith, wait_loop-keeps timeout (get_status bus.inst ∷ h))

  pub wait_idle-keeps :
      (h : History)
      → (packets bus.inst (wait_idle dev bus h).0 ≡ packets bus.inst h)
        × (last_fill bus.inst (wait_idle dev bus h).0 ≡ last_fill bus.inst h)
  unfolding wait_idle
  wait_idle-keeps h = ground (arith, wait_loop-keeps (wait_limit bus) h)

  wait_loop-reset :
      (timeout : ℕ) (h : History)
      → (wait_loop dev bus timeout h).1 ≡ false
      → ends_reset (wait_loop dev bus timeout h).0 ≡ true
  unfolding wait_loop
  wait_loop-reset zero h e = refl
  wait_loop-reset (suc timeout) h e =
      ground (arith, wait_loop-reset timeout (get_status bus.inst ∷ h))

  -- a wait that fails on a bus that is there has reset the transfer
  pub wait_idle-reset :
      (h : History)
      → valid_bus dev bus ≡ true
      → (wait_idle dev bus h).1 ≡ false
      → ends_reset (wait_idle dev bus h).0 ≡ true
  unfolding wait_idle
  wait_idle-reset h v e = ground (arith, wait_loop-reset (wait_limit bus) h)

  wait_loop_bound :
      (timeout : ℕ) (h : History) → length (wait_loop dev bus timeout h).0 ≤ length h + timeout + 2
  unfolding wait_loop
  wait_loop_bound zero h = omega arith
  wait_loop_bound (suc timeout) h =
      ground (arith, wait_loop_bound timeout (get_status bus.inst ∷ h))

  pub wait_idle_bound :
      (h : History) → length (wait_idle dev bus h).0 ≤ length h + wait_limit bus + 2
  unfolding wait_idle
  wait_idle_bound h = ground (arith, wait_loop_bound (wait_limit bus) h)
