-- ===== src/Imu/Attitude/Yaw.antt =====
-- The yaw lock of the two attitude filters.
use nuedc_control_freertos.Prelude.{true, ◌≡◌, refl}
use nuedc_control_freertos.Control.Floats.{Floats}
use nuedc_control_freertos.Imu.Device.{Icm45688, quat_from_euler}
use nuedc_control_freertos.Imu.Attitude.{
  yaw_should_lock, update_complementary_attitude, update_mahony_attitude,
}

module _ (fl : Floats) where
  pub complementary-locked :
      (dev : Icm45688 fl.Float)
      → yaw_should_lock fl dev ≡ true
      → (update_complementary_attitude fl dev).yaw_deg ≡ dev.yaw_deg
  unfolding update_complementary_attitude
  complementary-locked dev h = rw h refl

  pub mahony-locked :
      (dev : Icm45688 fl.Float)
      → yaw_should_lock fl dev ≡ true
      → (update_mahony_attitude fl dev).yaw_deg ≡ dev.yaw_deg
  unfolding update_mahony_attitude quat_from_euler
  mahony-locked dev h = rw h refl
