-- ===== src/Platform/I2c.antt =====
-- platform/mspm0g3507/drivers/drv_i2c.c. A result of 0 is true here, and -1 is false. The display
-- driver makes its own calls of the same controller, which are listed here too.
pub mod Transfer
pub mod Accesses
use nuedc_control_freertos.Prelude.{
  ℕ, zero, suc, ◌+◌, ◌-◌, ◌*◌, Bool, true, false, ◌||◌, not, Option, none, some, List, [], ◌∷◌,
  length, ltb, ◌==◌, u32, if◌then◌else◌,
}

pub data I2cCall : Type 0 where
  get_status : ℕ → I2cCall
  reset_transfer : ℕ → I2cCall
  enable : ℕ → I2cCall
  disable : ℕ → I2cCall
  flush_tx : ℕ → I2cCall
  fill_tx : ℕ → List ℕ → I2cCall
  start_transfer : ℕ → ℕ → ℕ → I2cCall  -- the controller, the address, the length
  update_msa : ℕ → ℕ → I2cCall  -- MASTER.MSA, with the address, for a read
  update_mctr : ℕ → ℕ → I2cCall  -- MASTER.MCTR, with the length, for a read after the FIFO
  is_rx_empty : ℕ → I2cCall
  receive : ℕ → I2cCall
  delay_cycles : ℕ → I2cCall

abbrev pub History : Type 0
History = List I2cCall

-- the bits of the controller's status that the drivers test
pub record I2cStatus : Type 0 where
  pub error : Bool
  pub idle : Bool
  pub busy : Bool
  pub busy_bus : Bool

-- what DriverLib answers after a history; `filled` is the number of bytes that the FIFO took
pub record I2cDevice : Type 0 where
  pub status : ℕ → History → I2cStatus
  pub filled : ℕ → List ℕ → History → ℕ
  pub rx_empty : ℕ → History → Bool
  pub received : ℕ → History → ℕ

pub record DrvI2cBus : Type 0 where
  pub inst : ℕ
  pub wait_limit : ℕ
  pub tx_fifo_bytes : ℕ

abbrev pub default_wait_limit : ℕ
default_wait_limit = 100000

abbrev pub default_tx_fifo_bytes : ℕ
default_tx_fifo_bytes = 8

unfoldable pub wait_limit : DrvI2cBus → ℕ
wait_limit bus = if bus.wait_limit == 0 then default_wait_limit else bus.wait_limit

unfoldable pub tx_fifo_bytes : DrvI2cBus → ℕ
tx_fifo_bytes bus = if bus.tx_fifo_bytes == 0 then default_tx_fifo_bytes else bus.tx_fifo_bytes

module _ (dev : I2cDevice) (bus : DrvI2cBus) where
  unfoldable pub valid_bus : Bool
  valid_bus = not (bus.inst == 0)

  -- the loop, by the timeout that is left
  unfoldable pub wait_loop : ℕ → History → History × Bool
  wait_loop zero h = (reset_transfer bus.inst ∷ get_status bus.inst ∷ h, false)
  wait_loop (suc timeout) h =
      let s = dev.status bus.inst h in
      let rest = wait_loop timeout (get_status bus.inst ∷ h) in
      if s.error
      then (reset_transfer bus.inst ∷ get_status bus.inst ∷ h, false)
      else if not s.idle || (s.busy || s.busy_bus)
      then rest
      else (get_status bus.inst ∷ h, true)

  unfoldable pub wait_idle : History → History × Bool
  unfolding valid_bus wait_loop
  wait_idle h = if valid_bus then wait_loop (wait_limit bus) h else (h, false)

  -- the transfer of a write that has passed the guards
  unfoldable pub send : ℕ → List ℕ → History → History × Bool
  unfolding wait_idle
  send addr bytes h =
      let h1 = reset_transfer bus.inst ∷ h in
      let h2 = fill_tx bus.inst bytes ∷ h1 in
      let (h3, ready) = wait_idle h2 in
      let started = delay_cycles 32 ∷ start_transfer bus.inst addr (length bytes) ∷ h3 in
      if dev.filled bus.inst bytes h1 == length bytes
      then (if ready then wait_idle started else (h3, false))
      else (reset_transfer bus.inst ∷ h2, false)

  unfoldable pub write : ℕ → Option (List ℕ) → History → History × Bool
  unfolding valid_bus send
  write addr none h = (h, false)
  write addr (some bytes) h =
      if not valid_bus || ((length bytes == 0) || ltb (tx_fifo_bytes bus) (length bytes))
      then (h, false)
      else send addr bytes h

  unfoldable pub write_reg8 : ℕ → ℕ → List ℕ → History → History × Bool
  unfolding valid_bus write
  write_reg8 addr reg bytes h =
      if not valid_bus
        || (ltb (tx_fifo_bytes bus - 1) (length bytes)
            || ltb (default_tx_fifo_bytes - 1) (length bytes))
      then (h, false)
      else write addr (some (reg ∷ bytes)) h

  unfoldable pub start_register_read : ℕ → ℕ → History → History
  start_register_read addr len h = update_mctr bus.inst len ∷ update_msa bus.inst addr ∷ h

  -- the rounds of the read loop up to the next byte, by the timeout that is left
  unfoldable pub receive_byte : ℕ → History → History × Option ℕ
  receive_byte zero h =
      let h1 = get_status bus.inst ∷ h in
      let h2 = is_rx_empty bus.inst ∷ h1 in
      if (dev.status bus.inst h).error
      then (reset_transfer bus.inst ∷ h1, none)
      else if dev.rx_empty bus.inst h1
      then (reset_transfer bus.inst ∷ h2, none)
      else (receive bus.inst ∷ h2, some (dev.received bus.inst h2))
  receive_byte (suc timeout) h =
      let h1 = get_status bus.inst ∷ h in
      let h2 = is_rx_empty bus.inst ∷ h1 in
      let rest = receive_byte timeout h2 in
      if (dev.status bus.inst h).error
      then (reset_transfer bus.inst ∷ h1, none)
      else if dev.rx_empty bus.inst h1
      then rest
      else (receive bus.inst ∷ h2, some (dev.received bus.inst h2))

  -- the read loop, over the places of the buffer that are left
  unfoldable pub read_bytes : List ℕ → History → History × Bool × List ℕ
  unfolding receive_byte
  read_bytes [] h = (h, true, [])
  read_bytes (old ∷ olds) h =
      let (h1, byte) = receive_byte (u32 (wait_limit bus * (length (old ∷ olds) + 1))) h in
      let (h2, ok, rest) = read_bytes olds h1 in
      elim byte [ none ↦ (h1, false, old ∷ olds) | some b ↦ (h2, ok, b ∷ rest) ]

  -- the transfer of a read that has passed the guards
  unfoldable pub fetch : ℕ → ℕ → List ℕ → History → History × Bool × List ℕ
  unfolding wait_idle start_register_read read_bytes
  fetch addr reg buffer h =
      let h1 = reset_transfer bus.inst ∷ h in
      let h2 = fill_tx bus.inst (reg ∷ []) ∷ h1 in
      let (h3, ready) = wait_idle h2 in
      let started = delay_cycles 32 ∷ start_register_read addr (length buffer) h3 in
      let (h4, ok, got) = read_bytes buffer started in
      let (h5, idle) = wait_idle h4 in
      if dev.filled bus.inst (reg ∷ []) h1 == 1
      then (if ready
          then (if ok then (h5, idle, got) else (h4, false, got))
          else (h3, false, buffer))
      else (reset_transfer bus.inst ∷ h2, false, buffer)

  unfoldable pub read_reg8 : ℕ → ℕ → Option (List ℕ) → History → History × Bool × List ℕ
  unfolding valid_bus fetch
  read_reg8 addr reg none h = (h, false, [])
  read_reg8 addr reg (some buffer) h =
      if not valid_bus || ((length buffer == 0) || ltb 0x0FFF (length buffer))
      then (h, false, buffer)
      else fetch addr reg buffer h
