-- ===== src/Telemetry/Command.antt =====
-- modules/telemetry/telemetry.c: the command lines. A line is the list of its bytes, which stands for
-- the first `s_cmd_idx` places of `s_cmd_buf`; the places after them are never read. `atoi`,
-- `strtol` and `strtoul` of the C library are parameters, and a printed answer is a `Reply`.
pub mod Line
use nuedc_control_freertos.Prelude.{
  ℕ, ◌+◌, ◌/◌, Bool, true, false, ◌&&◌, ◌||◌, not, Option, none, some, List, [], ◌∷◌, ◌++◌, ℤ, pos,
  negsuc, length, ltb, leb, ◌==◌, is_zero_ℤ, u16, u32, to_i16, if◌then◌else◌,
}
use nuedc_control_freertos.Telemetry.Requests.{Requests}

pub data TelemetryImuCalRequest : Type 0 where
  imu_cal_none imu_cal_start imu_cal_cancel : TelemetryImuCalRequest

pub data Reply : Type 0 where
  ok_start ok_stop ok_pause ok_resume ok_cal_start ok_cal_cancel : Reply
  ok_rate : ℤ → Reply
  ok_raw_line ok_raw_imu : Bool → Reply
  ok_duty : ℤ → ℤ → ℕ → Reply
  err_rate_range err_duty_parse err_unknown : Reply
  dump : ℕ → Bool → Bool → Bool → Reply

pub record Port : Type 0 where
  pub requests : Requests
  pub imu_cal_request : TelemetryImuCalRequest
  pub period_ms : ℕ
  pub enabled : Bool
  pub raw_line_enabled : Bool
  pub raw_imu_enabled : Bool
  pub cmd_line : List ℕ

abbrev pub cmd_buf_len : ℕ
cmd_buf_len = 80

unfoldable pub consume_imu_cal : Port → Port × TelemetryImuCalRequest
consume_imu_cal p = (record p { imu_cal_request = imu_cal_none }, p.imu_cal_request)

-- `strcmp` gives 0
unfoldable pub same : List ℕ → List ℕ → Bool
same [] [] = true
same [] (_ ∷ _) = false
same (_ ∷ _) [] = false
same (x ∷ xs) (y ∷ ys) = (x == y) && same xs ys

-- `strncmp` on the length of the word gives 0: what follows the word
unfoldable pub after_word : List ℕ → List ℕ → Option (List ℕ)
after_word [] xs = some xs
after_word (_ ∷ _) [] = none
after_word (c ∷ cs) (x ∷ xs) = let rest = after_word cs xs in if x == c then rest else none

-- `strchr`: what stands before the character and after it
unfoldable pub split_at : ℕ → List ℕ → Option (List ℕ × List ℕ)
split_at c [] = none
split_at c (x ∷ xs) =
    let rest = split_at c xs in
    if x == c then some ([], xs) else elim rest [ none ↦ none | some r ↦ some (x ∷ r.0, r.1) ]

-- the line up to a NUL, a carriage return or a line feed
unfoldable pub cut : List ℕ → List ℕ
cut [] = []
cut (x ∷ xs) = let rest = cut xs in if (x == 0) || (x == 13) || (x == 10) then [] else x ∷ rest

-- the words `$START`, `$RUN`, `$STOP`, `$PAUSE`, `$RESUME`, `$RATE,`, `$RAWLINE,`, `$RAWIMU,`,
-- `$DUTY,`, `$IMUCAL,START`, `$IMUCAL,CANCEL` and `$DUMP` in ASCII
abbrev pub start_word : List ℕ
start_word = 36 ∷ 83 ∷ 84 ∷ 65 ∷ 82 ∷ 84 ∷ []

abbrev pub run_word : List ℕ
run_word = 36 ∷ 82 ∷ 85 ∷ 78 ∷ []

abbrev pub stop_word : List ℕ
stop_word = 36 ∷ 83 ∷ 84 ∷ 79 ∷ 80 ∷ []

abbrev pub pause_word : List ℕ
pause_word = 36 ∷ 80 ∷ 65 ∷ 85 ∷ 83 ∷ 69 ∷ []

abbrev pub resume_word : List ℕ
resume_word = 36 ∷ 82 ∷ 69 ∷ 83 ∷ 85 ∷ 77 ∷ 69 ∷ []

abbrev pub rate_word : List ℕ
rate_word = 36 ∷ 82 ∷ 65 ∷ 84 ∷ 69 ∷ 44 ∷ []

abbrev pub raw_line_word : List ℕ
raw_line_word = 36 ∷ 82 ∷ 65 ∷ 87 ∷ 76 ∷ 73 ∷ 78 ∷ 69 ∷ 44 ∷ []

abbrev pub raw_imu_word : List ℕ
raw_imu_word = 36 ∷ 82 ∷ 65 ∷ 87 ∷ 73 ∷ 77 ∷ 85 ∷ 44 ∷ []

abbrev pub duty_word : List ℕ
duty_word = 36 ∷ 68 ∷ 85 ∷ 84 ∷ 89 ∷ 44 ∷ []

abbrev pub cal_start_word : List ℕ
cal_start_word = 36 ∷ 73 ∷ 77 ∷ 85 ∷ 67 ∷ 65 ∷ 76 ∷ 44 ∷ 83 ∷ 84 ∷ 65 ∷ 82 ∷ 84 ∷ []

abbrev pub cal_cancel_word : List ℕ
cal_cancel_word = 36 ∷ 73 ∷ 77 ∷ 85 ∷ 67 ∷ 65 ∷ 76 ∷ 44 ∷ 67 ∷ 65 ∷ 78 ∷ 67 ∷ 69 ∷ 76 ∷ []

abbrev pub dump_word : List ℕ
dump_word = 36 ∷ 68 ∷ 85 ∷ 77 ∷ 80 ∷ []

module _ (atoi : List ℕ → ℤ) (strtol : List ℕ → ℤ) (strtoul : List ℕ → ℕ) where
  abbrev give_duty : Port → List ℕ → List ℕ → ℕ → Port × List Reply
  give_duty p left right hold =
      let l = to_i16 (strtol left) in
      let r = to_i16 (strtol right) in
      (
        record p {
          requests = record p.requests {
            duty_request = record { left_pwm = l; right_pwm = r; hold_ms = hold };
            duty_request_pending = true;
          };
        },
        ok_duty l r hold ∷ [],
      )

  unfoldable pub handle_duty : Port → List ℕ → Port × List Reply
  unfolding split_at
  handle_duty p args = elim (split_at 44 args) [
    | none ↦ (p, err_duty_parse ∷ [])
    | some a ↦ elim (split_at 44 a.1) [
      | none ↦ give_duty p a.0 a.1 800
      | some b ↦ give_duty p a.0 b.0 (u32 (strtoul b.1))
    ]
  ]

  unfoldable pub set_rate : Port → ℤ → Port × List Reply
  set_rate p (negsuc n) = (p, err_rate_range ∷ [])
  set_rate p (pos hz) =
      let period = u16 (1000 / hz) in
      if leb 1 hz && leb hz 500
      then (record p { period_ms = if period == 0 then 1 else period }, ok_rate (pos hz) ∷ [])
      else (p, err_rate_range ∷ [])

  -- the lines that are one word and a value, and `$DUTY,`; then the last two words
  unfoldable pub handle_value : Port → List ℕ → Port × List Reply
  unfolding handle_duty set_rate after_word same
  handle_value p line = elim (after_word rate_word line) [
    | some v ↦ set_rate p (atoi v)
    | none ↦ elim (after_word raw_line_word line) [
      | some v ↦
          let on = not (is_zero_ℤ (atoi v)) in
          (record p { raw_line_enabled = on }, ok_raw_line on ∷ [])
      | none ↦ elim (after_word raw_imu_word line) [
        | some v ↦
            let on = not (is_zero_ℤ (atoi v)) in
            (record p { raw_imu_enabled = on }, ok_raw_imu on ∷ [])
        | none ↦ elim (after_word duty_word line) [
          | some v ↦ handle_duty p v
          | none ↦
              if same line cal_start_word
              then (record p { imu_cal_request = imu_cal_start }, ok_cal_start ∷ [])
              else if same line cal_cancel_word
              then (record p { imu_cal_request = imu_cal_cancel }, ok_cal_cancel ∷ [])
              else if same line dump_word
              then (p, dump p.period_ms p.enabled p.raw_line_enabled p.raw_imu_enabled ∷ [])
              else if same line []
              then (p, [])
              else (p, err_unknown ∷ [])
        ]
      ]
    ]
  ]

  unfoldable pub handle_line : Port → List ℕ → Port × List Reply
  unfolding handle_value cut same
  handle_line p buf =
      let line = cut buf in
      if same line start_word || same line run_word
      then (record p { requests = record p.requests { start_request = true } }, ok_start ∷ [])
      else if same line stop_word
      then (record p { requests = record p.requests { stop_request = true } }, ok_stop ∷ [])
      else if same line pause_word
      then (record p { enabled = false }, ok_pause ∷ [])
      else if same line resume_word
      then (record p { enabled = true }, ok_resume ∷ [])
      else handle_value p line

  unfoldable pub on_rx_byte : Port → ℕ → Port × List Reply
  unfolding handle_line
  on_rx_byte p byte =
      if byte == 115
      then (record p { requests = record p.requests { start_request = true } }, [])
      else if byte == 120
      then (record p { requests = record p.requests { stop_request = true } }, [])
      else if byte == 10
      then (let (p', out) = handle_line p p.cmd_line in (record p' { cmd_line = [] }, out))
      else if byte == 13
      then (p, [])
      else if ltb (length p.cmd_line) 79
      then (record p { cmd_line = p.cmd_line ++ (byte ∷ []) }, [])
      else (record p { cmd_line = [] }, [])
