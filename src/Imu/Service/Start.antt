-- ===== src/Imu/Service/Start.antt =====
-- A sensor that answers with another identity.
use nuedc_control_freertos.Prelude.{ℕ, suc, true, false, ℤ, ◌≡◌, refl, arith, ◌==◌, some}
use nuedc_control_freertos.Platform.Spi.{DrvSpiBus}
use nuedc_control_freertos.Control.Floats.{Floats}
use nuedc_control_freertos.Imu.Device.{
  reset_attitude, init_attitude_defaults, init_handle_spi, set_filter, set_sample_low_pass,
  set_stationary_detection, set_attitude_mode, set_accel_trust_window, set_accel_rejection,
  set_mahony_gains,
}
use nuedc_control_freertos.Imu.Sample.{is_ok, expected_whoami, read_who_am_i}
use nuedc_control_freertos.Imu.Service.{ImuBoard, State, configure_imu_handle}
use nuedc_control_freertos.Imu.Service.Task.{attempt, attempts}

module _ (fl : Floats) (hw : ImuBoard) where
  configured-ready : (bus : DrvSpiBus) → (configure_imu_handle fl bus).ready ≡ false
  unfolding configure_imu_handle set_mahony_gains set_accel_rejection set_accel_trust_window
      set_attitude_mode set_stationary_detection set_sample_low_pass set_filter init_handle_spi
      init_attitude_defaults reset_attitude
  configured-ready bus = ground arith

  attempt-unidentified :
      (bus : DrvSpiBus) (s : State fl hw)
      → let (w, read, whoami) = hw.vendor.get_who_am_i s.world in
        is_ok read ≡ true
        → (whoami == expected_whoami) ≡ false
        → ((attempt fl hw bus s).1 ≡ read)
          × ((attempt fl hw bus s).0.imu.ready ≡ false)
          × ((attempt fl hw bus s).0.world ≡ w)
  unfolding attempt read_who_am_i
  attempt-unidentified bus s answers other = ground (arith, configured-ready bus)

  -- If the sensor answers with another identity, the attempts end at the first one with the status
  -- of the answer, and the sensor has not been set up.
  pub attempts-unidentified :
      (fuel : ℕ) (bus : DrvSpiBus) (n : ℕ) (s : State fl hw) (status : ℤ)
      → let (w, read, whoami) = hw.vendor.get_who_am_i s.world in
        is_ok read ≡ true
        → (whoami == expected_whoami) ≡ false
        → (attempts fl hw fuel bus (suc n) s status ≡ some ((attempt fl hw bus s).0, read))
          × ((attempt fl hw bus s).0.imu.ready ≡ false)
          × ((attempt fl hw bus s).0.world ≡ w)
  unfolding attempts
  attempts-unidentified fuel bus n s status answers other =
      let (read, unready, asked) = attempt-unidentified bus s answers other in
      (rw (attempts, read, answers) refl, unready, asked)
