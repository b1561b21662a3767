-- ===== src/Imu.antt =====
-- modules/imu: the sensor (device/dev_icm45688.c) and its service (imu_service.c).
pub mod Device
pub mod Attitude
pub mod Transport
pub mod Sample
pub mod YawCalibration
pub mod Service
pub mod Tests
