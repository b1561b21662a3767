-- ===== src/Imu/YawCalibration/Scale.antt =====
-- The scale of the yaw rate that is in use while and after a calibration.
use nuedc_control_freertos.Prelude.{
  ◌+◌, Bool, true, false, ◌&&◌, ◌≡◌, refl, sym, ◌∙◌, arith, leb, u16, Bool-cases, inl, inr,
  if◌then◌else◌,
}
use nuedc_control_freertos.Control.Floats.{Floats}
use nuedc_control_freertos.Imu.Device.{
  Icm45688, zero_f, one_f, reset_attitude, reset_sample_low_pass, set_gyro_scale,
}
use nuedc_control_freertos.Imu.YawCalibration.{
  ImuYawCalState, idle, wait_still, wait_positive, positive_active, wait_negative, negative_active,
  complete, failed, positive_captured, negative_captured, motion_start_dps, four_lap_deg,
  capture_min, settle_wanted, Calibrated, scale_is_valid, set_scale_z, fail, start, finish,
  on_wait_still, on_positive_active, on_negative_active, on_state, update, cancel, service_requests,
  is_open,
}

module _ (fl : Floats) where
  open fl use {Float, lt}

  abbrev pub IsPositive : Float → Type 0
  IsPositive x = lt (zero_f fl) x ≡ true

  -- What the state of the calibration says of the scale in use: 1 while it runs, the former one if
  -- it has failed, and a valid result if it is complete.
  abbrev pub InUse : ImuYawCalState → Float → Float → Float → Type 0
  InUse idle z previous result = IsPositive z
  InUse complete z previous result = IsPositive z × (z ≡ result) × (scale_is_valid fl z ≡ true)
  InUse failed z previous result = IsPositive previous × (z ≡ previous)
  InUse _ z previous result = IsPositive previous × (z ≡ one_f fl)

  abbrev pub IsConsistent : Calibrated Float → Type 0
  IsConsistent c = InUse c.cal.state c.imu.gyro_scale_z c.cal.previous_scale c.cal.result_scale

  -- the scale before a calibration is positive
  abbrev pub HasPrevious : Calibrated Float → Type 0
  HasPrevious c = IsPositive c.cal.previous_scale

  -- 1 is positive, and so is every scale between the limits
  module _ (one_IsPositive : IsPositive (one_f fl))
      (valid-IsPositive : (x : Float) → scale_is_valid fl x ≡ true → IsPositive x) where
    set_scale_z-z :
        (imu : Icm45688 Float) (z : Float) → IsPositive z → (set_scale_z fl imu z).gyro_scale_z ≡ z
    unfolding set_scale_z set_gyro_scale
    set_scale_z-z imu z h = ground arith

    reset_attitude-z :
        (imu : Icm45688 Float) → (reset_attitude fl imu).gyro_scale_z ≡ imu.gyro_scale_z
    unfolding reset_attitude
    reset_attitude-z imu = refl

    reset-z :
        (imu : Icm45688 Float) (z : Float)
        → IsPositive z
        → (reset_attitude fl (set_scale_z fl imu z)).gyro_scale_z ≡ z
    reset-z imu z h = reset_attitude-z (set_scale_z fl imu z) ∙ set_scale_z-z imu z h

    fail-IsConsistent : (c : Calibrated Float) → HasPrevious c → IsConsistent (fail fl c)
    unfolding fail
    fail-IsConsistent c h = (h, reset-z c.imu c.cal.previous_scale h)

    start-IsConsistent :
        (c : Calibrated Float) → IsPositive c.imu.gyro_scale_z → IsConsistent (start fl c)
    unfolding start reset_sample_low_pass
    start-IsConsistent c h = (
      h,
      reset_attitude-z (reset_sample_low_pass fl (set_scale_z fl c.imu (one_f fl)))
          ∙ set_scale_z-z c.imu (one_f fl) one_IsPositive,
    )

    finish-IsConsistent : (c : Calibrated Float) → HasPrevious c → IsConsistent (finish fl c)
    unfolding finish
    finish-IsConsistent c h =
        let result =
          fl.div (fl.mul (fl.lit 20 1) (four_lap_deg fl))
            (fl.sub c.cal.positive_measured_deg c.cal.negative_measured_deg) in
        elim (Bool-cases (scale_is_valid fl result)) [
          | inl valid ↦ ground (
            arith,
            valid,
            fail-IsConsistent c h,
            valid-IsPositive result valid,
            reset-z c.imu result,
          )
          | inr invalid ↦ ground (
            arith,
            invalid,
            fail-IsConsistent (record c { cal = record c.cal { result_scale = result } }) h,
            fail-IsConsistent c h,
          )
        ]

    -- what a calibration that runs has of the scales
    abbrev IsRunning : Calibrated Float → Type 0
    IsRunning c = HasPrevious c × (c.imu.gyro_scale_z ≡ one_f fl)

    IsConsistent-at :
        (s : ImuYawCalState) (c : Calibrated Float)
        → c.cal.state ≡ s
        → InUse s c.imu.gyro_scale_z c.cal.previous_scale c.cal.result_scale
        → IsConsistent c
    IsConsistent-at s c e h = rw e h

    running_at :
        (s : ImuYawCalState) (c : Calibrated Float)
        → c.cal.state ≡ s
        → IsConsistent c
        → InUse s c.imu.gyro_scale_z c.cal.previous_scale c.cal.result_scale
    running_at s c e h = rw (sym e) h

    on_wait_still-IsConsistent :
        (c : Calibrated Float)
        → c.cal.state ≡ wait_still
        → IsRunning c
        → IsConsistent (on_wait_still fl c)
    unfolding on_wait_still reset_attitude
    on_wait_still-IsConsistent c e h = elim (Bool-cases c.imu.stationary) [
      | inl stationary ↦ elim (Bool-cases (leb settle_wanted (u16 (c.cal.settle_samples + 1)))) [
        | inl enough ↦ rw (stationary, enough) h
        | inr more ↦ rw (stationary, more, e) h
      ]
      | inr moving ↦ rw (moving, e) h
    ]

    on_positive_active-IsConsistent :
        (c : Calibrated Float) (phase_yaw_deg : Float)
        → c.cal.state ≡ positive_active
        → IsRunning c
        → IsConsistent (on_positive_active fl c phase_yaw_deg)
    unfolding on_positive_active
    on_positive_active-IsConsistent c phase_yaw_deg e h =
        let scale = fl.div (four_lap_deg fl) phase_yaw_deg in
        let n = u16 (c.cal.settle_samples + 1) in
        elim (Bool-cases (c.imu.stationary && fl.le (capture_min fl) phase_yaw_deg)) [
          | inl captured ↦ elim (Bool-cases (leb settle_wanted n)) [
            | inl enough ↦ elim (Bool-cases (scale_is_valid fl scale)) [
              | inl valid ↦ rw (captured, enough, valid) h
              | inr invalid ↦
                  rw (captured, enough, invalid)
                    (fail-IsConsistent (positive_captured fl c phase_yaw_deg) h.0)
            ]
            | inr more ↦ rw (captured, more, e) h
          ]
          | inr moving ↦ rw (moving, e) h
        ]

    on_negative_active-IsConsistent :
        (c : Calibrated Float) (phase_yaw_deg : Float)
        → c.cal.state ≡ negative_active
        → IsRunning c
        → IsConsistent (on_negative_active fl c phase_yaw_deg)
    unfolding on_negative_active
    on_negative_active-IsConsistent c phase_yaw_deg e h =
        elim (Bool-cases (c.imu.stationary && fl.le phase_yaw_deg (fl.neg (capture_min fl)))) [
          | inl captured ↦ elim (Bool-cases (leb settle_wanted (u16 (c.cal.settle_samples + 1)))) [
            | inl enough ↦
                rw (captured, enough)
                  (finish-IsConsistent (negative_captured fl c phase_yaw_deg) h.0)
            | inr more ↦ rw (captured, more, e) h
          ]
          | inr moving ↦ rw (moving, e) h
        ]

    on_state-IsConsistent :
        (s : ImuYawCalState) (c : Calibrated Float) (phase : Float)
        → c.cal.state ≡ s
        → InUse s c.imu.gyro_scale_z c.cal.previous_scale c.cal.result_scale
        → IsConsistent (on_state fl s c phase)
    unfolding on_state
    on_state-IsConsistent wait_still c phase e h = on_wait_still-IsConsistent c e h
    on_state-IsConsistent wait_positive c phase e h =
        elim (Bool-cases (fl.le (motion_start_dps fl) c.imu.gz_dps)) [
          | inl moves ↦ rw moves h
          | inr waits ↦ rw waits (IsConsistent-at wait_positive c e h)
        ]
    on_state-IsConsistent positive_active c phase e h = on_positive_active-IsConsistent c phase e h
    on_state-IsConsistent wait_negative c phase e h =
        elim (Bool-cases (fl.le c.imu.gz_dps (fl.neg (motion_start_dps fl)))) [
          | inl moves ↦ rw moves h
          | inr waits ↦ rw waits (IsConsistent-at wait_negative c e h)
        ]
    on_state-IsConsistent negative_active c phase e h = on_negative_active-IsConsistent c phase e h
    on_state-IsConsistent idle c phase e h = IsConsistent-at idle c e h
    on_state-IsConsistent complete c phase e h = IsConsistent-at complete c e h
    on_state-IsConsistent failed c phase e h = IsConsistent-at failed c e h

    pub update-IsConsistent : (c : Calibrated Float) → IsConsistent c → IsConsistent (update fl c)
    unfolding update
    update-IsConsistent c h =
        on_state-IsConsistent c.cal.state c (fl.sub c.imu.yaw_deg c.cal.phase_origin_deg) refl h

    -- the scale in use is positive in every state
    InUse-IsPositive :
        (s : ImuYawCalState) (z previous result : Float) → InUse s z previous result → IsPositive z
    InUse-IsPositive idle z previous result h = h
    InUse-IsPositive complete z previous result h = h.0
    InUse-IsPositive failed z previous result h = rw h.1 h.0
    InUse-IsPositive wait_still z previous result h = rw h.1 one_IsPositive
    InUse-IsPositive wait_positive z previous result h = rw h.1 one_IsPositive
    InUse-IsPositive positive_active z previous result h = rw h.1 one_IsPositive
    InUse-IsPositive wait_negative z previous result h = rw h.1 one_IsPositive
    InUse-IsPositive negative_active z previous result h = rw h.1 one_IsPositive

    scale-IsPositive : (c : Calibrated Float) → IsConsistent c → IsPositive c.imu.gyro_scale_z
    scale-IsPositive c h =
        InUse-IsPositive c.cal.state c.imu.gyro_scale_z c.cal.previous_scale c.cal.result_scale h

    previous-IsPositive :
        (s : ImuYawCalState) (z previous result : Float)
        → is_open s ≡ true
        → InUse s z previous result
        → IsPositive previous
    previous-IsPositive idle z previous result o h = absurd (ground arith)
    previous-IsPositive complete z previous result o h = absurd (ground arith)
    previous-IsPositive failed z previous result o h = h.0
    previous-IsPositive wait_still z previous result o h = h.0
    previous-IsPositive wait_positive z previous result o h = h.0
    previous-IsPositive positive_active z previous result o h = h.0
    previous-IsPositive wait_negative z previous result o h = h.0
    previous-IsPositive negative_active z previous result o h = h.0

    -- A calibration taken back leaves the former scale in use, and a complete one its result.
    pub cancel-scale :
        (c : Calibrated Float)
        → IsConsistent c
        → (cancel fl c).imu.gyro_scale_z
          ≡ (if is_open c.cal.state then c.cal.previous_scale else c.imu.gyro_scale_z)
    unfolding cancel
    cancel-scale c h = elim (Bool-cases (is_open c.cal.state)) [
      | inl open_state ↦
          let positive =
            previous-IsPositive c.cal.state c.imu.gyro_scale_z c.cal.previous_scale
              c.cal.result_scale open_state h in
          rw (open_state, positive) (reset-z c.imu c.cal.previous_scale positive)
      | inr done ↦ rw done (reset_attitude-z c.imu)
    ]

    cancel-IsConsistent : (c : Calibrated Float) → IsConsistent c → IsConsistent (cancel fl c)
    unfolding cancel
    cancel-IsConsistent c h = rw (cancel-scale c h) (elim (Bool-cases (is_open c.cal.state)) [
      | inl open_state ↦ rw open_state (
          previous-IsPositive c.cal.state c.imu.gyro_scale_z c.cal.previous_scale c.cal.result_scale
            open_state h)
      | inr done ↦ rw done (scale-IsPositive c h)
    ])

    pub service_requests-IsConsistent :
        (cancels starts : Bool) (c : Calibrated Float)
        → IsConsistent c
        → IsConsistent (service_requests fl cancels starts c)
    unfolding service_requests
    service_requests-IsConsistent false false c h = h
    service_requests-IsConsistent true false c h = cancel-IsConsistent c h
    service_requests-IsConsistent false true c h = start-IsConsistent c (scale-IsPositive c h)
    service_requests-IsConsistent true true c h =
        start-IsConsistent (cancel fl c) (scale-IsPositive (cancel fl c) (cancel-IsConsistent c h))
