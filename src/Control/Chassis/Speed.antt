-- ===== src/Control/Chassis/Speed.antt =====
-- What a tick of the chassis gives each motor in the run state.
use nuedc_control_freertos.Prelude.{
  ℕ, true, false, ◌≡◌, refl, ap, ◌∙◌, arith, ℤ, pos, ◌+ℤ◌, ltb_ℤ, to_i16,
}
use nuedc_control_freertos.Motor.Board.{Board, forward_only}
use nuedc_control_freertos.Motor.Board.Bounds.{IsValid}
use nuedc_control_freertos.Encoder
use nuedc_control_freertos.Encoder.{Encoders}
use nuedc_control_freertos.Control.Floats.{Floats}
use nuedc_control_freertos.Control.Pid
use nuedc_control_freertos.Control.Pid.{Pid}
use nuedc_control_freertos.Control.Chassis.{
  ControlChassis, ControlChassisConfig, feed_forward, integrate_odometry, measure, tick,
}
use nuedc_control_freertos.Control.Chassis.Tick.{tick-Drives}

module _ (fl : Floats) where
  -- what the speed loop of a wheel asks for, by its target and the counts of its encoder
  abbrev pub speed_loop : Pid fl.Float → fl.Float → ℤ → ℤ
  speed_loop pid target count = fl.to_int16 (Pid.update fl pid target (fl.fabs (fl.of_int count))).1

  -- The duty that a wheel gets from what its speed loop asks for: that, where the target is not
  -- above the least forward speed or the duty is not positive; else the dead zone is added, up to
  -- the limit. The board clamps it.
  pub record Serves (config : ControlChassisConfig fl.Float) (target dead_zone : fl.Float)
      (pwm duty : ℤ) : Type 0 where
    pub slow : fl.lt config.forward_min_pulse target ≡ false → duty ≡ forward_only pwm
    pub backward : ltb_ℤ (pos 0) pwm ≡ false → duty ≡ forward_only pwm
    pub boosted :
        fl.lt config.forward_min_pulse target ≡ true
        → ltb_ℤ (pos 0) pwm ≡ true
        → ltb_ℤ (fl.to_int32 config.speed_out_limit) (pwm +ℤ fl.to_int32 dead_zone) ≡ false
        → duty ≡ forward_only (to_i16 (pwm +ℤ fl.to_int32 dead_zone))
    pub limited :
        fl.lt config.forward_min_pulse target ≡ true
        → ltb_ℤ (pos 0) pwm ≡ true
        → ltb_ℤ (fl.to_int32 config.speed_out_limit) (pwm +ℤ fl.to_int32 dead_zone) ≡ true
        → duty ≡ forward_only (to_i16 (fl.to_int32 config.speed_out_limit))

  feed_forward-Serves :
      (config : ControlChassisConfig fl.Float) (target dead_zone : fl.Float) (pwm duty : ℤ)
      → duty ≡ forward_only (feed_forward fl config target dead_zone pwm)
      → Serves config target dead_zone pwm duty
  unfolding feed_forward
  feed_forward-Serves config target dead_zone pwm duty h = record {
    slow = λ low. ground (arith, h, low);
    backward = λ low. ground (arith, h, low);
    boosted = λ fast forward room. ground (arith, h, fast, forward, room);
    limited = λ fast forward full. ground (arith, h, fast, forward, full);
  }

  -- the duties that a measurement asks for, each wheel's by itself
  measure-loops :
      (c : ControlChassis fl.Float) (e : Encoders)
      → ((measure fl c e).2 ≡ speed_loop c.pid_left c.target_speed_left (Encoder.get_delta e 0).1)
        × ((measure fl c e).3
            ≡ speed_loop c.pid_right c.target_speed_right (Encoder.get_delta e 1).1)
  unfolding measure integrate_odometry Encoder.get_delta
  measure-loops c e = (refl, refl)

  -- On a valid board, a tick in the run state gives each motor the duty that its own speed loop asks
  -- for, by its own target and the counts of its own encoder since the last tick, with the wheel's
  -- dead zone added where the target is above the least forward speed and the duty is positive, up
  -- to the limit, clamped by the board; and it records the time of the command.
  pub tick-Serves :
      (g_tick_ms : ℕ) (c : ControlChassis fl.Float) (e : Encoders) (b : Board) (now_ms : ℕ)
      → IsValid b
      → let b' = (tick fl g_tick_ms c e b true now_ms).2 in
        Serves c.config c.target_speed_left c.dead_zone_left
          (speed_loop c.pid_left c.target_speed_left (Encoder.get_delta e 0).1)
          b'.left.duty
        × Serves c.config c.target_speed_right c.dead_zone_right
            (speed_loop c.pid_right c.target_speed_right (Encoder.get_delta e 1).1)
            b'.right.duty
        × (b'.last_command_ms ≡ g_tick_ms)
  unfolding measure integrate_odometry
  tick-Serves g_tick_ms c e b now_ms v =
      let d = tick-Drives fl g_tick_ms c e b true now_ms v in
      let (left, right) = measure-loops c e in
      (
        feed_forward-Serves c.config c.target_speed_left c.dead_zone_left _ _ (
            d.on_left
            ∙ ap
                (λ p.
                  forward_only (feed_forward fl c.config c.target_speed_left c.dead_zone_left p))
                left),
        feed_forward-Serves c.config c.target_speed_right c.dead_zone_right _ _ (
            d.on_right
            ∙ ap
                (λ p.
                  forward_only (feed_forward fl c.config c.target_speed_right c.dead_zone_right p))
                right),
        d.stamped,
      )
