-- ===== src/Platform/Spi.antt =====
-- platform/mspm0g3507/drivers/drv_spi.c. A result of 0 is true here, and -1 is false. The receive
-- FIFO is drained with fuel, and `none` says that it ran out.
pub mod Transfer
pub mod Registers
use mathlib.Core.Option
use nuedc_control_freertos.Prelude.{
  ℕ, zero, suc, Bool, true, false, ◌&&◌, not, Option, none, some, List, [], ◌∷◌, bit_and, bit_or,
  ◌==◌, if◌then◌else◌,
}
use nuedc_control_freertos.Platform.Calls.{Call, set_pins, clear_pins}
use nuedc_control_freertos.Platform.Poll.{wait_while}

pub data SpiCall : Type 0 where
  pins : Call → SpiCall
  delay_cycles : ℕ → SpiCall
  is_busy : ℕ → SpiCall
  is_tx_full : ℕ → SpiCall
  is_rx_empty : ℕ → SpiCall
  transmit : ℕ → ℕ → SpiCall
  receive : ℕ → SpiCall

abbrev pub History : Type 0
History = List SpiCall

-- what the reads of DriverLib answer after a history
pub record SpiDevice : Type 0 where
  pub busy : ℕ → History → Bool
  pub tx_full : ℕ → History → Bool
  pub rx_empty : ℕ → History → Bool
  pub received : ℕ → History → ℕ

pub record DrvSpiBus : Type 0 where
  pub inst : ℕ
  pub cs_port : ℕ
  pub cs_pin : ℕ
  pub wait_limit : ℕ

abbrev pub default_wait_limit : ℕ
default_wait_limit = 100000

unfoldable pub wait_limit : DrvSpiBus → ℕ
wait_limit bus = if bus.wait_limit == 0 then default_wait_limit else bus.wait_limit

abbrev pub bytes_or_empty : Option (List ℕ) → List ℕ
bytes_or_empty none = []
bytes_or_empty (some bytes) = bytes

-- `cs_cycles` is `CPUCLK_FREQ / 500000` where the build defines the frequency, else 64.
module _ (dev : SpiDevice) (cs_cycles : ℕ) (bus : DrvSpiBus) where
  unfoldable pub cs_delay : History → History
  cs_delay h = delay_cycles cs_cycles ∷ h

  unfoldable pub select : History → History
  unfolding cs_delay
  select h = cs_delay (pins (clear_pins bus.cs_port bus.cs_pin) ∷ h)

  unfoldable pub deselect : History → History
  unfolding cs_delay
  deselect h =
      if not (bus.cs_port == 0) && not (bus.cs_pin == 0)
      then cs_delay (pins (set_pins bus.cs_port bus.cs_pin) ∷ h)
      else h

  unfoldable pub wait_not_busy : History → History × Bool
  wait_not_busy h = wait_while (is_busy bus.inst) (dev.busy bus.inst) (wait_limit bus) h

  unfoldable pub drain_rx : ℕ → History → Option History
  drain_rx zero h = if dev.rx_empty bus.inst h then some (is_rx_empty bus.inst ∷ h) else none
  drain_rx (suc fuel) h =
      let rest = drain_rx fuel (receive bus.inst ∷ is_rx_empty bus.inst ∷ h) in
      if dev.rx_empty bus.inst h then some (is_rx_empty bus.inst ∷ h) else rest

  -- the byte that came back, if there was one in time
  unfoldable pub transfer8 : ℕ → History → History × Option ℕ
  transfer8 tx h =
      let (h1, free) = wait_while (is_tx_full bus.inst) (dev.tx_full bus.inst) (wait_limit bus) h in
      let (h2, there) =
        wait_while (is_rx_empty bus.inst) (dev.rx_empty bus.inst) (wait_limit bus)
          (transmit bus.inst tx ∷ h1) in
      if free
      then (if there then (receive bus.inst ∷ h2, some (dev.received bus.inst h2)) else (h2, none))
      else (h1, none)

  unfoldable pub valid : Option (List ℕ) → Bool
  valid none = false
  valid (some []) = false
  valid (some (_ ∷ _)) = not (bus.inst == 0) && not (bus.cs_port == 0) && not (bus.cs_pin == 0)

  -- the loop of a write
  unfoldable pub write_bytes : List ℕ → History → History × Bool
  write_bytes [] h = (h, true)
  write_bytes (b ∷ bs) h =
      let (h', back) = transfer8 b h in
      let rest = write_bytes bs h' in elim back [ none ↦ (h', false) | some _ ↦ rest ]

  -- the loop of a read, over the caller's buffer: a byte not reached keeps its value
  unfoldable pub read_bytes : List ℕ → History → History × Bool × List ℕ
  read_bytes [] h = (h, true, [])
  read_bytes (old ∷ olds) h =
      let (h', back) = transfer8 0 h in
      let (h'', ok, rest) = read_bytes olds h' in
      elim back [ none ↦ (h', false, old ∷ olds) | some b ↦ (h'', ok, b ∷ rest) ]

  -- the first byte, the loop, and the last wait
  unfoldable pub write_selected : ℕ → List ℕ → History → History × Bool
  unfolding wait_not_busy transfer8 write_bytes
  write_selected reg bytes h =
      let (h1, back) = transfer8 (bit_and reg 0x7F) h in
      let (h2, ok) = write_bytes bytes h1 in
      elim back [ none ↦ (h1, false) | some _ ↦ if ok then wait_not_busy h2 else (h2, false) ]

  unfoldable pub read_selected : ℕ → List ℕ → History → History × Bool × List ℕ
  unfolding wait_not_busy transfer8 read_bytes
  read_selected reg buffer h =
      let (h1, back) = transfer8 (bit_or reg 0x80) h in
      let (h2, ok, got) = read_bytes buffer h1 in
      let (h3, idle) = wait_not_busy h2 in
      elim back [
        | none ↦ (h1, false, buffer)
        | some _ ↦ if ok then (h3, idle, got) else (h2, false, got)
      ]

  -- The bytes are `data` and `len`; a null pointer is `none`.
  unfoldable pub write_reg8 : ℕ → ℕ → Option (List ℕ) → History → Option (History × Bool)
  unfolding valid select deselect wait_not_busy drain_rx write_selected
  write_reg8 fuel reg bytes h =
      let (h1, idle) = wait_not_busy h in
      if valid bytes
      then (if idle
          then Option.map
              (λ h2.
                let (h3, ok) = write_selected reg (bytes_or_empty bytes) (select h2) in
                (deselect h3, ok))
              (drain_rx fuel h1)
          else some (h1, false))
      else some (h, false)

  unfoldable pub read_reg8 : ℕ → ℕ → Option (List ℕ) → History → Option (History × Bool × List ℕ)
  unfolding valid select deselect wait_not_busy drain_rx read_selected
  read_reg8 fuel reg buffer h =
      let (h1, idle) = wait_not_busy h in
      let old = bytes_or_empty buffer in
      if valid buffer
      then (if idle
          then Option.map
              (λ h2.
                let (h3, ok, got) = read_selected reg old (select h2) in (deselect h3, ok, got))
              (drain_rx fuel h1)
          else some (h1, false, old))
      else some (h, false, old)
