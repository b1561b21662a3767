-- ===== src/Imu/Tests.antt =====
-- Examples of the sensor, with integers for the floating-point numbers.
use nuedc_control_freertos.Prelude.{
  ℕ, ℤ, ◌+◌, ◌*◌, ◌≤◌, true, false, [], ◌∷◌, pos, negsuc, ◌≡◌, refl, arith, u32, leb, some, Returns,
}
use nuedc_control_freertos.Control.Tests.{integers}
use nuedc_control_freertos.Platform.Spi.{DrvSpiBus}
use nuedc_control_freertos.System.Health
use nuedc_control_freertos.Imu.Device.{Icm45688, mahony_6axis, init_handle_spi}
use nuedc_control_freertos.Imu.Attitude.{Vector}
use nuedc_control_freertos.Imu.Transport.{cycles_per_us, sleep_ms, icm_sleep_us}
use nuedc_control_freertos.Imu.Transport.Sleep
use nuedc_control_freertos.Imu.Sample.{Vendor, RawData, hold_samples}
use nuedc_control_freertos.Imu.Sample.Stationary.{samples, still_run, samples-stationary}
use nuedc_control_freertos.Imu.YawCalibration.{cleared, idle, scale_is_valid}
use nuedc_control_freertos.Imu.YawCalibration.Scale.{IsPositive}
use nuedc_control_freertos.Imu.Service.{ImuBoard, ImuSnapshot, off, State}
use nuedc_control_freertos.Imu.Service.Task.{attempt, attempts}
use nuedc_control_freertos.Imu.Service.Wait.{HasClock}
use nuedc_control_freertos.Imu.Service.Rounds.{turn, requested, cancelled, run, Fits, run-Fits}
use nuedc_control_freertos.Imu.Service.Start.{attempts-unidentified}

abbrev bus : DrvSpiBus
bus = record { inst = 1; cs_port = 1; cs_pin = 4; wait_limit = 100 }

-- a sensor that has been set up and lies still, with the yaw at 7
abbrev sensor : Icm45688 ℤ
sensor = record (init_handle_spi integers bus) {
  ready = true;
  stationary = true;
  attitude_mode = mahony_6axis;
  gyro_scale_z = pos 1;
  yaw_deg = pos 7;
  stationary_hold_samples = 5;
  stationary_sample_count = 5;
}

abbrev still_sample : RawData
still_sample = record {
  accel_x = pos 0;
  accel_y = pos 0;
  accel_z = pos 1;
  gyro_x = pos 0;
  gyro_y = pos 0;
  gyro_z = pos 0;
  temp = pos 3;
}

samples-stationary_example :
    (samples integers sensor (still_sample ∷ still_sample ∷ [])).stationary
    ≡ leb 5 (still_run integers sensor (still_sample ∷ still_sample ∷ []) 5)
unfolding hold_samples
samples-stationary_example =
    samples-stationary integers sensor (still_sample ∷ still_sample ∷ []) 5 refl refl

-- the driver's state is the tick count; the identity it reads is 7
abbrev vendor : Vendor
vendor = record {
  State = ℕ;
  get_who_am_i = λ w. (w, pos 0, 7);
  write_drive_config0 = λ w. (w, pos 0);
  set_up = λ c w. (w, pos 0);
  get_int_status = λ w. (w, pos 0, true);
  get_register_data = λ w. (w, pos 0, still_sample);
}

abbrev pub board : ImuBoard
board = record { vendor = vendor; data_ready = λ w. true; ticks = λ w. u32 w; delay = λ n w. w + n }

board-HasClock : HasClock board (λ w. w)
board-HasClock = record {
  counted = λ w. refl;
  asked = λ w. omega arith;
  asked_bound = λ w. omega arith;
  delayed = λ w. omega arith;
  delayed_bound = λ w. omega arith;
}

abbrev no_vector : Vector ℤ
no_vector = record { x = pos 0; y = pos 0; z = pos 0 }

abbrev pub first_snapshot : ImuSnapshot ℤ
first_snapshot = record {
  sequence = 0;
  timestamp_ms = 0;
  accel_g = no_vector;
  gyro_dps = no_vector;
  temperature_c = pos 0;
  pitch_deg = pos 0;
  roll_deg = pos 0;
  yaw_deg = pos 0;
  gyro_bias_z_dps = pos 0;
  gyro_scale_z = pos 0;
  status = pos 0;
  state = off;
  yaw_cal_state = idle;
  stationary = false;
  ready = false;
}

abbrev pub service : State integers board
service = record {
  imu = sensor;
  cal = cleared integers;
  snapshot = first_snapshot;
  start_requested = false;
  cancel_requested = false;
  health = Health.init 100;
  world = 100;
}

valid-IsPositive : (x : ℤ) → scale_is_valid integers x ≡ true → IsPositive integers x
unfolding scale_is_valid
valid-IsPositive x h = ground arith

run-Fits_example :
    Returns
      (run integers board (requested ∷ turn ∷ cancelled ∷ turn ∷ []) service)
      (Fits integers board)
run-Fits_example =
    run-Fits integers board (λ w. w) board-HasClock refl valid-IsPositive
      (requested ∷ turn ∷ cancelled ∷ turn ∷ []) service refl

attempts-unidentified_example :
    (attempts integers board 30 bus 5 service (negsuc 0)
      ≡ some ((attempt integers board bus service).0, pos 0))
    × ((attempt integers board bus service).0.imu.ready ≡ false)
    × ((attempt integers board bus service).0.world ≡ 100)
attempts-unidentified_example =
    attempts-unidentified integers board 30 bus 4 service (negsuc 0) refl refl

sleep-total_example :
    (Sleep.total (icm_sleep_us 80000000 3000 []) ≡ 0 + cycles_per_us 80000000 * 3000)
    × ((sleep_ms (cycles_per_us 80000000) 3000 3000 []).0 ≤ 1000)
sleep-total_example = Sleep.sleep-total 80000000 3000 [] (omega arith)
