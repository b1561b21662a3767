-- ===== src/Motor/Board/Safety.antt =====
-- The command timeout of bsp_motor.c: output that nobody refreshes is cut.
use nuedc_control_freertos.Prelude.{
  ℕ, ◌≤◌, ◌<◌, List, [], ◌∷◌, ◌≡◌, ◌⊎◌, inl, inr, arith, pos, All, sub_u32,
}
use nuedc_control_freertos.Motor.Device
use nuedc_control_freertos.Motor.Device.{DevMotor}
use nuedc_control_freertos.Motor.Board.{Board, safety_tick, any_running, brake}
use nuedc_control_freertos.Motor.Board.Bounds.{
  IsValid, Op, command, forward, stop, check, apply, run, clamp_signed-zero, apply-IsValid,
}

abbrev pub IsStopped : Board → Type 0
IsStopped b = (b.left.duty ≡ pos 0) × (b.right.duty ≡ pos 0)

-- how long ago, on the 32-bit tick, the last command was given
abbrev pub age : Board → ℕ → ℕ
age b now_ms = sub_u32 now_ms b.last_command_ms

-- A check more than 100 ms after the last command leaves both motors stopped.
pub safety_tick-IsStopped :
    (b : Board) (now_ms : ℕ) → IsValid b → 100 < age b now_ms → IsStopped (safety_tick b now_ms).0
unfolding safety_tick Device.set_signed_duty Device.get_duty
safety_tick-IsStopped b now_ms v h = ground (
  arith,
  clamp_signed-zero b.left.config v.left_limit,
  clamp_signed-zero b.right.config v.right_limit,
)

-- Earlier than that it does nothing at all.
pub safety_tick_fresh :
    (b : Board) (now_ms : ℕ) → age b now_ms ≤ 100 → safety_tick b now_ms ≡ (b, [])
unfolding safety_tick
safety_tick_fresh b now_ms h = ground arith

-- An operation that gives no command.
abbrev pub IsPassive : Op → Type 0
IsPassive (command _ _ _) = ⊥
IsPassive (forward _ _ _) = ⊥
IsPassive (stop _) = Unit
IsPassive (check _) = Unit

-- An operation that checks the board more than 100 ms after the tick `stamp`.
abbrev pub IsLate : ℕ → Op → Type 0
IsLate stamp (command _ _ _) = ⊥
IsLate stamp (forward _ _ _) = ⊥
IsLate stamp (stop _) = ⊥
IsLate stamp (check now_ms) = 100 < sub_u32 now_ms stamp

abbrev pub Some {ℓ} : {A : Type ℓ} → (A → Type 0) → List A → Type 0
Some P [] = ⊥
Some P (x ∷ xs) = P x ⊎ Some P xs

-- No passive operation moves the time of the last command, or starts a motor.
passive-stamp :
    (b : Board) (op : Op) → IsPassive op → (apply b op).0.last_command_ms ≡ b.last_command_ms
unfolding apply brake safety_tick
passive-stamp b (command _ _ _) h = absurd h
passive-stamp b (forward _ _ _) h = absurd h
passive-stamp b (stop ch) h = ground arith
passive-stamp b (check now_ms) h = ground arith

passive-IsStopped : (b : Board) (op : Op) → IsPassive op → IsStopped b → IsStopped (apply b op).0
unfolding apply brake safety_tick Device.brake any_running Device.get_duty
passive-IsStopped b (command _ _ _) h s = absurd h
passive-IsStopped b (forward _ _ _) h s = absurd h
passive-IsStopped b (stop ch) h s = ground arith
passive-IsStopped b (check now_ms) h s = ground arith

passives-IsStopped :
    (b : Board) (ops : List Op) → All IsPassive ops → IsStopped b → IsStopped (run b ops).0
unfolding run
passives-IsStopped b [] h s = s
passives-IsStopped b (op ∷ ops) h s =
    passives-IsStopped (apply b op).0 ops h.1 (passive-IsStopped b op h.0 s)

late-IsStopped :
    (b : Board) (op : Op) → IsValid b → IsLate b.last_command_ms op → IsStopped (apply b op).0
unfolding apply
late-IsStopped b (command _ _ _) v h = absurd h
late-IsStopped b (forward _ _ _) v h = absurd h
late-IsStopped b (stop _) v h = absurd h
late-IsStopped b (check now_ms) v h = safety_tick-IsStopped b now_ms v h

-- With no command any more, one check that comes more than 100 ms after the last one is enough:
-- both motors are stopped when the calls end, whatever else they are.
pub unrefreshed-IsStopped :
    (b : Board) (ops : List Op)
    → IsValid b
    → All IsPassive ops
    → Some (IsLate b.last_command_ms) ops
    → IsStopped (run b ops).0
unfolding run
unrefreshed-IsStopped b [] v p s = absurd s
unrefreshed-IsStopped b (op ∷ ops) v p (inl late) =
    passives-IsStopped (apply b op).0 ops p.1 (late-IsStopped b op v late)
unrefreshed-IsStopped b (op ∷ ops) v p (inr later) =
    unrefreshed-IsStopped (apply b op).0 ops (apply-IsValid b op v) p.1
      (rw (passive-stamp b op p.0) later)
