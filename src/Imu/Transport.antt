-- ===== src/Imu/Transport.antt =====
-- modules/imu/device/dev_icm45688.c: the transport that the vendor's driver calls, over the history of
-- the SPI driver. `cpu_hz` is the clock that the build defines; a null pointer is `none`.
pub mod Sleep
use nuedc_control_freertos.Prelude.{
  ℕ, zero, suc, ◌-◌, ◌*◌, ◌/◌, Bool, true, false, ◌||◌, Option, none, some, List, [], ◌∷◌, ltb,
  ◌==◌, u32, if◌then◌else◌,
}
use nuedc_control_freertos.Platform.Spi.{SpiDevice, History, delay_cycles, write_reg8, read_reg8}
use nuedc_control_freertos.Imu.Device.{Icm45688}

unfoldable pub cycles_per_us : ℕ → ℕ
cycles_per_us cpu_hz = let cycles = cpu_hz / 1000000 in if cycles == 0 then 1 else cycles

-- the loop of whole milliseconds, and what is left of the time
unfoldable pub sleep_ms : ℕ → ℕ → ℕ → History → ℕ × History
sleep_ms cycles zero us h = (us, h)
sleep_ms cycles (suc fuel) us h =
    let rest = sleep_ms cycles fuel (us - 1000) (delay_cycles (u32 (cycles * 1000)) ∷ h) in
    if ltb 1000 us then rest else (us, h)

unfoldable pub icm_sleep_us : ℕ → ℕ → History → History
icm_sleep_us cpu_hz us h =
    let cycles = cycles_per_us cpu_hz in
    let (left, h') = sleep_ms cycles us us h in
    if ltb 0 left then delay_cycles (u32 (cycles * left)) ∷ h' else h'

-- no bytes, or a null pointer to them
abbrev is_missing : Option (List ℕ) → Bool
is_missing none = true
is_missing (some []) = true
is_missing (some (_ ∷ _)) = false

-- true is the result 0, and false is -1
module _ {F : Type 0} (dev : SpiDevice) (cs_cycles : ℕ) where
  unfoldable pub icm_spi_write :
      ℕ → Option (Icm45688 F) → ℕ → Option (List ℕ) → History → Option (History × Bool)
  icm_spi_write fuel none reg buf h = some (h, false)
  icm_spi_write fuel (some imu) reg buf h =
      let written = write_reg8 dev cs_cycles imu.bus fuel reg buf h in
      if is_missing buf then some (h, false) else written

  unfoldable pub icm_spi_read :
      ℕ → Option (Icm45688 F) → ℕ → Option (List ℕ) → History → Option (History × Bool × List ℕ)
  icm_spi_read fuel none reg buf h = some (h, false, [])
  icm_spi_read fuel (some imu) reg buf h =
      let read = read_reg8 dev cs_cycles imu.bus fuel reg buf h in
      if (imu.bus.inst == 0) || is_missing buf then some (h, false, []) else read
