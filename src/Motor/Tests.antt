-- ===== src/Motor/Tests.antt =====
-- Examples of the motor board.
use nuedc_control_freertos.Prelude.{
  ℕ, ◌+◌, true, false, some, [], ◌∷◌, refl, inl, inr, arith, ℤ, pos, negsuc,
}
use nuedc_control_freertos.Platform.Gpio.{DrvGpioPin}
use nuedc_control_freertos.Platform.Pwm.{active_low, duty_compare}
use nuedc_control_freertos.Motor.Device.{DevMotor}
use nuedc_control_freertos.Motor.Board.{Board}
use nuedc_control_freertos.Motor.Board.Bounds.{IsValid, forward, stop, check, run}
use nuedc_control_freertos.Motor.Board.Safety.{IsStopped, unrefreshed-IsStopped}
use nuedc_control_freertos.Motor.Board.Hardware.{IsApart, Agrees, register, run-Agrees}

abbrev pin : ℕ → DrvGpioPin
pin n = record { port = 1; pin = n; active_low = false }

abbrev motor_on : ℕ → ℤ → DevMotor
motor_on channel duty = record {
  config = record {
    output = record {
      pwm = record { timer = 7; channel = channel; period_ticks = 1000; polarity = active_low };
      in1 = pin (4 + channel);
      in2 = pin (8 + channel);
      direction = negsuc 0;
    };
    encoder = record { phase_a = pin 1; phase_b = pin 2; direction = pos 1 };
    max_duty = pos 1000;
    has_encoder = false;
  };
  encoder = record {
    config = record { phase_a = pin 1; phase_b = pin 2; direction = pos 1 };
    last_state = 0;
    delta = pos 0;
    total = pos 0;
  };
  duty = duty;
  started = true;
}

-- both motors at 300, commanded at tick 50
abbrev pub running : Board
running = record { left = motor_on 0 (pos 300); right = motor_on 1 (pos 300); last_command_ms = 50 }

pub running-IsValid : IsValid running
running-IsValid = record {
  left_limit = refl;
  right_limit = refl;
  left_bound = omega arith;
  right_bound = omega arith;
}

running-IsApart : IsApart running
running-IsApart = omega arith

unrefreshed-IsStopped_example : IsStopped (run running (check 140 ∷ stop 1 ∷ check 151 ∷ [])).0
unrefreshed-IsStopped_example =
    unrefreshed-IsStopped running (check 140 ∷ stop 1 ∷ check 151 ∷ []) running-IsValid
      (omega arith) (inr (inr (inl (omega arith))))

run-Agrees_example :
    let out = run running (forward 60 0 (pos 500) ∷ check 170 ∷ []) in
    Agrees out.0 (register running.left (some 700) out.1) (register running.right (some 700) out.1)
unfolding duty_compare
run-Agrees_example =
    run-Agrees running (forward 60 0 (pos 500) ∷ check 170 ∷ []) (some 700) (some 700)
      running-IsApart running-IsValid (record { left_holds = refl; right_holds = refl })
