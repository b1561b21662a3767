-- ===== src/Vision/Tests.antt =====
-- Examples of the vision parser: a target frame, and a command frame up to its last byte.
use nuedc_control_freertos.Prelude.{ℕ, List, [], ◌∷◌, ◌++◌, ◌≡◌, true, refl, arith}
use nuedc_control_freertos.Vision.{DevVision, init, on_rx_byte, silent}
use nuedc_control_freertos.Vision.Frame.{frame}
use nuedc_control_freertos.Vision.Accept.{feed, target_of, ReportsTarget, feed-target}
use nuedc_control_freertos.Vision.Read.{EndsIn}
use nuedc_control_freertos.Vision.Sound.{History, fresh, byte, Tells, report-frame}

abbrev spot : List ℕ
spot = 10 ∷ 0 ∷ 20 ∷ 1 ∷ 3 ∷ 44 ∷ 0 ∷ []

feed-target_example : ReportsTarget (target_of spot 500) (feed (silent init) 500 (frame 1 spot))
unfolding init
feed-target_example =
    feed-target init 500 10 (0 ∷ 20 ∷ 1 ∷ 3 ∷ 44 ∷ 0 ∷ []) refl refl (omega arith) (omega arith)

abbrev parser_after : DevVision → List ℕ → DevVision
parser_after v [] = v
parser_after v (b ∷ bs) = parser_after (on_rx_byte v b 0).0 bs

abbrev bytes_after : List ℕ → List ℕ → List ℕ
bytes_after h [] = h
bytes_after h (b ∷ bs) = bytes_after (h ++ (b ∷ [])) bs

History_after :
    {v : DevVision} {h : List ℕ} (bs : List ℕ)
    → History v h
    → History (parser_after v bs) (bytes_after h bs)
History_after [] past = past
History_after {v} {h} (b ∷ bs) past =
    History_after {v = (on_rx_byte v b 0).0} {h = h ++ (b ∷ [])} bs (byte past b 0)

-- the command 7, without its line feed
abbrev almost : List ℕ
almost = 0xAA ∷ 0x55 ∷ 1 ∷ 2 ∷ 7 ∷ 4 ∷ 0x0D ∷ []

reports_now : (on_rx_byte (parser_after init almost) 0x0A 9).1 ≡ true
unfolding on_rx_byte init
reports_now = refl

report-frame_example :
    (bs : List ℕ) × EndsIn (almost ++ (0x0A ∷ [])) (frame (parser_after init almost).frame_type bs)
    × Tells
        (parser_after init almost).frame_type
        bs
        9
        (on_rx_byte (parser_after init almost) 0x0A 9).2
report-frame_example = report-frame 0x0A 9 (History_after almost fresh) reports_now
