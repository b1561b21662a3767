-- ===== src/Platform/I2c/Accesses.antt =====
-- What an access over I2C does as a whole.
use nuedc_control_freertos.Prelude.{
  ℕ, zero, suc, ◌+◌, ◌*◌, ◌≤◌, true, false, none, some, List, [], ◌∷◌, ◌≡◌, refl, arith, length,
  u32, ◌⊎◌,
}
use nuedc_control_freertos.Platform.I2c.{
  I2cDevice, DrvI2cBus, History, get_status, reset_transfer, is_rx_empty, fill_tx, delay_cycles,
  start_transfer, wait_limit, valid_bus, wait_idle, send, write, write_reg8, receive_byte,
  read_bytes, start_register_read, fetch, read_reg8,
}
use nuedc_control_freertos.Platform.I2c.Transfer.{ends_reset, wait_idle-reset, wait_idle_bound}

module _ (dev : I2cDevice) (bus : DrvI2cBus) where
  send-reset :
      (addr : ℕ) (bytes : List ℕ) (h : History)
      → valid_bus dev bus ≡ true
      → (send dev bus addr bytes h).1 ≡ false
      → ends_reset (send dev bus addr bytes h).0 ≡ true
  unfolding send
  send-reset addr bytes h v e =
      let h2 = fill_tx bus.inst bytes ∷ reset_transfer bus.inst ∷ h in
      let h3 = (wait_idle dev bus h2).0 in
      ground (
        arith,
        wait_idle-reset dev bus h2,
        wait_idle-reset dev bus
            (delay_cycles 32 ∷ start_transfer bus.inst addr (length bytes) ∷ h3),
      )

  -- A register write that fails has made no call at all, or has ended with a reset of the transfer.
  pub write_reg8-reset :
      (addr reg : ℕ) (bytes : List ℕ) (h : History)
      → (write_reg8 dev bus addr reg bytes h).1 ≡ false
      → ((write_reg8 dev bus addr reg bytes h).0 ≡ h)
        ⊎ (ends_reset (write_reg8 dev bus addr reg bytes h).0 ≡ true)
  unfolding write_reg8 write
  write_reg8-reset addr reg bytes h e = ground (arith, send-reset addr (reg ∷ bytes) h)

  -- A register write makes a bounded number of calls: two waits, and at most four calls more.
  pub write_reg8_bound :
      (addr reg : ℕ) (bytes : List ℕ) (h : History)
      → length (write_reg8 dev bus addr reg bytes h).0 ≤ length h + 2 * wait_limit bus + 8
  unfolding write_reg8 write send
  write_reg8_bound addr reg bytes h =
      let h2 = fill_tx bus.inst (reg ∷ bytes) ∷ reset_transfer bus.inst ∷ h in
      let h3 = (wait_idle dev bus h2).0 in
      ground (
        arith,
        wait_idle_bound dev bus h2,
        wait_idle_bound dev bus
            (delay_cycles 32 ∷ start_transfer bus.inst addr (length (reg ∷ bytes)) ∷ h3),
      )

  receive_byte-reset :
      (timeout : ℕ) (h : History)
      → (receive_byte dev bus timeout h).1 ≡ none
      → ends_reset (receive_byte dev bus timeout h).0 ≡ true
  unfolding receive_byte
  receive_byte-reset zero h e = ground arith
  receive_byte-reset (suc timeout) h e =
      ground (arith, receive_byte-reset timeout (is_rx_empty bus.inst ∷ get_status bus.inst ∷ h))

  read_bytes-reset :
      (olds : List ℕ) (h : History)
      → (read_bytes dev bus olds h).1 ≡ false
      → ends_reset (read_bytes dev bus olds h).0 ≡ true
  unfolding read_bytes
  read_bytes-reset [] h e = cc
  read_bytes-reset (old ∷ olds) h e =
      let timeout = u32 (wait_limit bus * (length (old ∷ olds) + 1)) in
      let h1 = (receive_byte dev bus timeout h).0 in
      ground (arith, receive_byte-reset timeout h, read_bytes-reset olds h1)

  length-read_bytes :
      (olds : List ℕ) (h : History) → length (read_bytes dev bus olds h).2 ≡ length olds
  unfolding read_bytes
  length-read_bytes [] h = refl
  length-read_bytes (old ∷ olds) h =
      let timeout = u32 (wait_limit bus * (length (old ∷ olds) + 1)) in
      let h1 = (receive_byte dev bus timeout h).0 in ground (arith, length-read_bytes olds h1)

  -- A register read that fails has made no call at all, or has ended with a reset of the transfer.
  pub read_reg8-reset :
      (addr reg : ℕ) (buffer : List ℕ) (h : History)
      → (read_reg8 dev bus addr reg (some buffer) h).1 ≡ false
      → ((read_reg8 dev bus addr reg (some buffer) h).0 ≡ h)
        ⊎ (ends_reset (read_reg8 dev bus addr reg (some buffer) h).0 ≡ true)
  unfolding read_reg8 fetch
  read_reg8-reset addr reg buffer h e =
      let h2 = fill_tx bus.inst (reg ∷ []) ∷ reset_transfer bus.inst ∷ h in
      let h3 = (wait_idle dev bus h2).0 in
      let started = delay_cycles 32 ∷ start_register_read dev bus addr (length buffer) h3 in
      ground (
        arith,
        wait_idle-reset dev bus h2,
        read_bytes-reset buffer started,
        wait_idle-reset dev bus (read_bytes dev bus buffer started).0,
      )
