-- ===== src/Telemetry/Command/Line.antt =====
-- How bytes become command lines, and what a command may leave behind.
use nuedc_control_freertos.Prelude.{
  ℕ, suc, ◌+◌, ◌≤◌, ◌<◌, Bool, true, ◌||◌, not, List, [], ◌∷◌, ◌++◌, ◌≡◌, refl, ap, sym, arith, ℤ,
  All, length, ◌==◌,
}
use nuedc_control_freertos.Telemetry.Command.{Port, Reply, handle_line, on_rx_byte}

-- a byte that is only stored: not `s`, `x`, a line feed or a carriage return
abbrev pub is_stored : ℕ → Bool
is_stored c = not ((c == 115) || (c == 120) || (c == 10) || (c == 13))

pub length-add : (xs : List ℕ) (c : ℕ) → length (xs ++ (c ∷ [])) ≡ suc (length xs)
length-add [] c = refl
length-add (x ∷ xs) c = ap suc (length-add xs c)

++-nil : {A : Type 0} → (xs : List A) → xs ++ [] ≡ xs
++-nil [] = refl
++-nil (x ∷ xs) = ap (λ t. x ∷ t) (++-nil xs)

++-step : (xs : List ℕ) (c : ℕ) (cs : List ℕ) → (xs ++ (c ∷ [])) ++ cs ≡ xs ++ (c ∷ cs)
++-step [] c cs = refl
++-step (x ∷ xs) c cs = ap (λ t. x ∷ t) (++-step xs c cs)

module _ (atoi : List ℕ → ℤ) (strtol : List ℕ → ℤ) (strtoul : List ℕ → ℕ) where
  unfoldable pub feed : Port → List ℕ → Port × List Reply
  unfolding on_rx_byte
  feed p [] = (p, [])
  feed p (c ∷ cs) =
      let (p', out) = on_rx_byte atoi strtol strtoul p c in
      let (p'', out') = feed p' cs in (p'', out ++ out')

  pub on_rx_byte-short :
      (p : Port) (c : ℕ)
      → length p.cmd_line ≤ 79
      → length (on_rx_byte atoi strtol strtoul p c).0.cmd_line ≤ 79
  unfolding on_rx_byte
  on_rx_byte-short p c h = ground (arith, length-add p.cmd_line c)

  -- Whatever bytes come in, the line never has more than 79 of them, so that a NUL fits behind it.
  pub feed-short :
      (p : Port) (bytes : List ℕ) → length p.cmd_line ≤ 79 → length (feed p bytes).0.cmd_line ≤ 79
  unfolding feed
  feed-short p [] h = h
  feed-short p (c ∷ cs) h =
      feed-short (on_rx_byte atoi strtol strtoul p c).0 cs (on_rx_byte-short p c h)

  stored_byte :
      (p : Port) (c : ℕ)
      → is_stored c ≡ true
      → length p.cmd_line < 79
      → on_rx_byte atoi strtol strtoul p c ≡ (record p { cmd_line = p.cmd_line ++ (c ∷ []) }, [])
  unfolding on_rx_byte
  stored_byte p c h short = ground arith

  line_end :
      (p : Port)
      → on_rx_byte atoi strtol strtoul p 10 ≡ (
        record (handle_line atoi strtol strtoul p p.cmd_line).0 { cmd_line = [] },
        (handle_line atoi strtol strtoul p p.cmd_line).1,
      )
  unfolding on_rx_byte
  line_end p = refl

  -- Bytes that are only stored, up to 79 with those already there, and then a line feed are handled
  -- as the line that they make; after it the line is empty.
  pub feed-line :
      (p : Port) (line : List ℕ)
      → All (λ c. is_stored c ≡ true) line
      → length p.cmd_line + length line ≤ 79
      → let q = record p { cmd_line = p.cmd_line ++ line } in
        let handled = handle_line atoi strtol strtoul q q.cmd_line in
        feed p (line ++ (10 ∷ [])) ≡ (record handled.0 { cmd_line = [] }, handled.1)
  unfolding feed
  feed-line p [] h short =
      simp (line_end p, ++-nil p.cmd_line, ++-nil (handle_line atoi strtol strtoul p p.cmd_line).1)
        refl
  feed-line p (c ∷ cs) (h, hs) short =
      let rest =
        feed-line (record p { cmd_line = p.cmd_line ++ (c ∷ []) }) cs hs
          (omega (arith, short, length-add p.cmd_line c)) in
      rw (stored_byte p c h (omega (arith, short)), sym (++-step p.cmd_line c cs)) rest
