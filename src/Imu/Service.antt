-- ===== src/Imu/Service.antt =====
-- modules/imu/imu_service.c: the task of the sensor. The tick count, the delay of the operating
-- system, the data-ready pin and the vendor's driver are operations on one state of the hardware;
-- a tick is 1 ms. The wait for a sample and the calibration of the bias run on fuel.
pub mod Calibration
pub mod Task
pub mod Wait
pub mod Rounds
pub mod Start
use mathlib.Core.Option.{Option, none, some}
use nuedc_control_freertos.Prelude.{
  ℕ, zero, suc, ◌+◌, Bool, true, false, ◌&&◌, ◌||◌, not, ℤ, pos, negsuc, wrap, leb, ltb, ◌==◌, u32,
  sub_u32, if◌then◌else◌,
}
use nuedc_control_freertos.Platform.Spi.{DrvSpiBus}
use nuedc_control_freertos.System.Health.{Health, beat, task_imu}
use nuedc_control_freertos.Control.Floats.{Floats}
use nuedc_control_freertos.Imu.Device.{
  Icm45688, mahony_6axis, zero_f, one_f, init_handle_spi, set_filter, set_sample_low_pass,
  set_stationary_detection, set_attitude_mode, set_accel_trust_window, set_accel_rejection,
  set_mahony_gains, set_gyro_scale, set_gyro_bias, set_gyro_bias_auto_update, reset_sample_low_pass,
  reset_attitude,
}
use nuedc_control_freertos.Imu.Attitude.{Vector}
use nuedc_control_freertos.Imu.Sample
use nuedc_control_freertos.Imu.Sample.{
  Vendor, imu_ok, imu_error, is_ok, expected_whoami, read_who_am_i, begin, get_data_ready,
}
use nuedc_control_freertos.Imu.YawCalibration
use nuedc_control_freertos.Imu.YawCalibration.{
  ImuYawCalState, YawCalibration, Calibrated, cleared, service_requests,
}

pub data ImuState : Type 0 where
  off initializing calibrating ready faulted : ImuState

pub record ImuSnapshot (F : Type 0) : Type 0 where
  pub sequence : ℕ
  pub timestamp_ms : ℕ
  pub accel_g : Vector F
  pub gyro_dps : Vector F
  pub temperature_c : F
  pub pitch_deg : F
  pub roll_deg : F
  pub yaw_deg : F
  pub gyro_bias_z_dps : F
  pub gyro_scale_z : F
  pub status : ℤ
  pub state : ImuState
  pub yaw_cal_state : ImuYawCalState
  pub stationary : Bool
  pub ready : Bool

-- the hardware and the operating system, as the task sees them
pub record ImuBoard : Type 1 where
  pub vendor : Vendor
  pub data_ready : vendor.State → Bool  -- `BSP_IMU_DataReady`
  pub ticks : vendor.State → ℕ  -- `xTaskGetTickCount`
  pub delay : ℕ → vendor.State → vendor.State  -- `vTaskDelay`

-- the static variables of the service, the heartbeats and the hardware
pub record Service (F S : Type 0) : Type 0 where
  pub imu : Icm45688 F
  pub cal : YawCalibration F
  pub snapshot : ImuSnapshot F
  pub start_requested : Bool
  pub cancel_requested : Bool
  pub health : Health
  pub world : S

abbrev pub data_timeout_ms : ℕ
data_timeout_ms = 50

abbrev pub init_retries : ℕ
init_retries = 5

abbrev pub imu_error_timeout : ℤ
imu_error_timeout = negsuc 3

abbrev pub cal_warmup_samples : ℕ
cal_warmup_samples = 200

abbrev pub cal_samples : ℕ
cal_samples = 2000

module _ (fl : Floats) where
  open fl use {Float, lit, add, sub, mul, div, lt, sqrt, of_int}

  unfoldable pub sample_stddev : Float → Float → ℕ → Float
  sample_stddev sum sum_sq count =
      let n = of_int (pos count) in
      let mean = div sum n in
      let variance = sub (div sum_sq n) (mul mean mean) in
      if count == 0
      then zero_f fl
      else sqrt (if lt variance (zero_f fl) then zero_f fl else variance)

  -- with the constants of `g_imu_calibrated_profile`
  unfoldable pub configure_imu_handle : DrvSpiBus → Icm45688 Float
  configure_imu_handle bus =
      let named = set_filter fl (init_handle_spi fl bus) (lit 5 3) (lit 98 2) in
      let passed = set_sample_low_pass fl named (lit 300 1) (zero_f fl) in
      let still = set_stationary_detection fl passed (lit 15 1) (lit 8 2) 5 in
      let mode = set_attitude_mode fl still mahony_6axis in
      let trusted = set_accel_trust_window fl mode (lit 15 2) in
      set_mahony_gains fl (set_accel_rejection fl trusted (lit 100 1)) (one_f fl) (zero_f fl)

  module _ (hw : ImuBoard) where
    open hw use {vendor, data_ready, ticks, delay}

    abbrev pub State : Type 0
    State = Service Float vendor.State

    unfoldable pub heartbeat : State → State
    heartbeat s = record s { health = beat s.health task_imu (ticks s.world) }

    unfoldable pub publish_snapshot : State → ImuState → ℤ → State
    publish_snapshot s state status = record s {
      snapshot = record {
        sequence = u32 (s.snapshot.sequence + 1);
        timestamp_ms = ticks s.world;
        accel_g = record { x = s.imu.ax_g; y = s.imu.ay_g; z = s.imu.az_g };
        gyro_dps = record { x = s.imu.gx_dps; y = s.imu.gy_dps; z = s.imu.gz_dps };
        temperature_c = s.imu.temp_c;
        pitch_deg = s.imu.pitch_deg;
        roll_deg = s.imu.roll_deg;
        yaw_deg = s.imu.yaw_deg;
        gyro_bias_z_dps = s.imu.gyro_bias_z_dps;
        gyro_scale_z = s.imu.gyro_scale_z;
        status = status;
        state = state;
        yaw_cal_state = s.cal.state;
        stationary = s.imu.stationary;
        ready = s.imu.ready;
      };
    }

    -- What one look at the sensor gives: the status to return, if the wait ends with it.
    unfoldable pub look : State → State × Option ℤ
    look s =
        let (w, status, drdy) = get_data_ready fl vendor s.imu s.world in
        let (imu, w', updated) = Sample.update fl vendor s.imu w in
        if not (data_ready s.world)
        then (s, none)
        else if not (is_ok status)
        then (record s { world = w }, some status)
        else if drdy
        then (record s { imu = imu; world = w' }, some updated)
        else (record s { world = w }, none)

    -- one turn without a sample: the timeout, or a heartbeat and a delay of one tick
    unfoldable pub wait_from : ℕ → ℕ → ℕ → State → Option (State × ℤ)
    wait_from zero start timeout s = none
    wait_from (suc fuel) start timeout s =
        let (looked, found) = look s in
        let beaten = heartbeat looked in
        let rest = wait_from fuel start timeout (record beaten { world = delay 1 beaten.world }) in
        elim found [
          | some status ↦ some (looked, status)
          | none ↦
              if leb timeout (sub_u32 (ticks looked.world) start)
              then some (looked, imu_error_timeout)
              else rest
        ]

    unfoldable pub wait_and_update_imu : ℕ → ℕ → State → Option (State × ℤ)
    wait_and_update_imu fuel timeout_ms s = wait_from fuel (ticks s.world) timeout_ms s
