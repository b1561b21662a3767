-- ===== src/Display/Text.antt =====
-- What a row of text puts on the display.
use mathlib.Core.List.{append_assoc}
use nuedc_control_freertos.Prelude.{
  ℕ, zero, suc, ◌+◌, ◌-◌, ◌*◌, ◌/◌, ◌%◌, u8, ◌≤◌, ◌<◌, Bool, true, false, some, List, [], ◌∷◌, ◌++◌,
  ◌≡◌, refl, sym, ap, ◌∙◌, arith, length, length-append, take, replicate, get_or, rev_onto, ◌==◌,
  if◌then◌else◌,
}
use nuedc_control_freertos.Platform.I2c.{I2cDevice, History}
use nuedc_control_freertos.Platform.I2c.Transfer.{packets}
use nuedc_control_freertos.Display.Font.{font5x7}
use nuedc_control_freertos.Display.{
  Display, control_command, control_data, text_columns, text_rows, normalize_char, glyph_of,
  write_command_list, write_data_list, set_cursor, write_char, write_cells, pad_cells,
  write_string_padded,
}
use nuedc_control_freertos.Display.Cursor.{
  page, column, commands, set_cursor-commands, write_cells-commands, pad_cells-commands,
}
use nuedc_control_freertos.Display.Packets.{carried, write_chunks-carried, rev_onto-append}

-- the columns of a text
unfoldable pub glyphs : List ℕ → List ℕ
glyphs [] = []
glyphs (c ∷ cs) = glyph_of c ++ glyphs cs

-- a text cut or filled with blanks to a number of characters
unfoldable pub fit : ℕ → List ℕ → List ℕ
fit zero text = []
fit (suc n) [] = 32 ∷ fit n []
fit (suc n) (c ∷ cs) = c ∷ fit n cs

blanks : ℕ → List ℕ
blanks n = replicate n 32

fit-nil : (n : ℕ) → fit n [] ≡ blanks n
unfolding fit blanks
fit-nil zero = refl
fit-nil (suc n) = ap (λ t. 32 ∷ t) (fit-nil n)

fit-take :
    (n m : ℕ) (text : List ℕ) → length (take n text) + m ≡ n → fit n text ≡ take n text ++ blanks m
unfolding fit blanks
fit-take zero zero text h = refl
fit-take zero (suc m) text h = absurd (omega arith)
fit-take (suc n) m [] h =
    let e : m ≡ suc n = omega (arith, h) in rw e (ap (λ t. 32 ∷ t) (fit-nil n))
fit-take (suc n) m (c ∷ cs) h = ap (λ t. c ∷ t) (fit-take n m cs (omega (arith, h)))

length-take : (n : ℕ) (text : List ℕ) → length (take n text) ≤ n
length-take zero text = omega arith
length-take (suc n) [] = omega arith
length-take (suc n) (c ∷ cs) = omega (arith, length-take n cs)

length-fit : (n : ℕ) (text : List ℕ) → length (fit n text) ≡ n
unfolding fit
length-fit zero text = refl
length-fit (suc n) [] = ap suc (length-fit n [])
length-fit (suc n) (c ∷ cs) = ap suc (length-fit n cs)

glyphs-append : (xs ys : List ℕ) → glyphs (xs ++ ys) ≡ glyphs xs ++ glyphs ys
unfolding glyphs
glyphs-append [] ys = refl
glyphs-append (x ∷ xs) ys =
    ap (λ t. glyph_of x ++ t) (glyphs-append xs ys)
    ∙ sym (append_assoc (glyph_of x) (glyphs xs) (glyphs ys))

-- every glyph of the font has five columns
five_columns : List (List ℕ) → Bool
five_columns [] = true
five_columns (g ∷ gs) = if length g == 5 then five_columns gs else false

length-get_or :
    (gs : List (List ℕ)) (k : ℕ)
    → five_columns gs ≡ true
    → k < length gs
    → length (get_or gs k []) ≡ 5
unfolding five_columns
length-get_or [] k h lt = absurd (omega arith)
length-get_or (g ∷ gs) zero h lt = ground arith
length-get_or (g ∷ gs) (suc k) h lt = ground (arith, length-get_or gs k)

normalize_char_bound : (c : ℕ) → normalize_char c < 96
unfolding normalize_char
normalize_char_bound c = ground arith

length-glyph_of : (c : ℕ) → length (glyph_of c) ≡ 6
unfolding glyph_of five_columns
length-glyph_of c =
    length-append (get_or font5x7 (normalize_char c) []) (0 ∷ [])
    ∙ ap (λ t. t + 1) (length-get_or font5x7 (normalize_char c) all_five (normalize_char_bound c))
  where
    all_five : five_columns font5x7 ≡ true
    all_five = refl

length-glyphs : (text : List ℕ) → length (glyphs text) ≡ length text * 6
unfolding glyphs
length-glyphs [] = refl
length-glyphs (c ∷ cs) =
    omega (arith, length-append (glyph_of c) (glyphs cs), length-glyph_of c, length-glyphs cs)

module _ (dev : I2cDevice) (d : Display) where
  -- the bytes of the picture that the display has been sent
  abbrev pub picture : History → List ℕ
  picture h = carried control_data (packets d.i2c h)

  write_char-picture :
      (c : ℕ) (h : History)
      → (write_char dev d c h).1 ≡ true
      → picture (write_char dev d c h).0 ≡ rev_onto (glyph_of c) (picture h)
  unfolding write_char write_data_list
  write_char-picture c h e =
      write_chunks-carried dev d control_data control_data (length (glyph_of c)) (glyph_of c) h e

  write_cells-picture :
      (cell n : ℕ) (text : List ℕ) (h : History)
      → cell + n ≡ text_columns
      → (write_cells dev d cell text h).1 ≡ true
      → (picture (write_cells dev d cell text h).0 ≡ rev_onto (glyphs (take n text)) (picture h))
        × ((write_cells dev d cell text h).2 ≡ cell + length (take n text))
  unfolding write_cells glyphs
  write_cells-picture cell zero [] h room e = (refl, omega arith)
  write_cells-picture cell (suc n) [] h room e = (refl, omega arith)
  write_cells-picture cell zero (c ∷ cs) h room e = ground arith
  write_cells-picture cell (suc n) (c ∷ cs) h room e =
      let h1 = (write_char dev d c h).0 in
      ground (
        arith,
        write_char-picture c h,
        write_cells-picture (cell + 1) n cs h1,
        rev_onto-append (glyph_of c) (glyphs (take n cs)) (picture h),
      )

  pad_cells-picture :
      (left : ℕ) (h : History)
      → (pad_cells dev d left h).1 ≡ true
      → picture (pad_cells dev d left h).0 ≡ rev_onto (glyphs (blanks left)) (picture h)
  unfolding pad_cells glyphs blanks
  pad_cells-picture zero h e = refl
  pad_cells-picture (suc left) h e =
      let h1 = (write_char dev d 32 h).0 in
      ground (
        arith,
        write_char-picture 32 h,
        pad_cells-picture left h1,
        rev_onto-append (glyph_of 32) (glyphs (blanks left)) (picture h),
      )

  set_cursor-picture :
      (row col : ℕ) (h : History)
      → (set_cursor dev d row col h).1 ≡ true
      → (picture (set_cursor dev d row col h).0 ≡ picture h)
        × (row < text_rows)
        × (col < text_columns)
  unfolding set_cursor write_command_list
  set_cursor-picture row col h e =
      let column = u8 (col * 6) in
      let commands = u8 (0xB0 + row) ∷ (column % 16) ∷ (0x10 + (column / 16) % 16) ∷ [] in
      ground (arith, write_chunks-carried dev d control_command control_data 3 commands h)

  write_string_padded-commands :
      (row col : ℕ) (text : List ℕ) (h : History)
      → (write_string_padded dev d row col (some text) h).1 ≡ true
      → let sent = commands dev d (write_string_padded dev d row col (some text) h).0 in
        (page sent ≡ row) × (column sent ≡ col * 6)
  unfolding write_string_padded
  write_string_padded-commands row col text h e =
      let h1 = (set_cursor dev d row col h).0 in
      let h2 = (write_cells dev d col text h1).0 in
      let left = text_columns - (write_cells dev d col text h1).2 in
      ground (
        arith,
        set_cursor-picture row col h,
        set_cursor-commands dev d row col h,
        write_cells-commands dev d col text h1,
        pad_cells-commands dev d left h2,
      )

  -- A padded text that is written has left the display's page at its row and the column from which
  -- it writes at six for each character before it, and adds to the picture the columns of the text,
  -- cut or filled with blanks to the end of its row: six columns for each cell that is left in it.
  pub write_string_padded-picture :
      (row col : ℕ) (text : List ℕ) (h : History)
      → (write_string_padded dev d row col (some text) h).1 ≡ true
      → (page (commands dev d (write_string_padded dev d row col (some text) h).0) ≡ row)
        × (column (commands dev d (write_string_padded dev d row col (some text) h).0) ≡ col * 6)
        × (picture (write_string_padded dev d row col (some text) h).0
            ≡ rev_onto (glyphs (fit (text_columns - col) text)) (picture h))
        × (length (glyphs (fit (text_columns - col) text)) ≡ (text_columns - col) * 6)
  unfolding write_string_padded
  write_string_padded-picture row col text h e =
      let n = text_columns - col in
      let h1 = (set_cursor dev d row col h).0 in
      let h2 = (write_cells dev d col text h1).0 in
      let left = text_columns - (write_cells dev d col text h1).2 in
      let (on_page, at_column) = write_string_padded-commands row col text h e in
      (
        on_page,
        at_column,
        ground (
          arith,
          set_cursor-picture row col h,
          write_cells-picture col n text h1,
          pad_cells-picture left h2,
          fit-take n left text,
          length-take n text,
          glyphs-append (take n text) (blanks left),
          rev_onto-append (glyphs (take n text)) (glyphs (blanks left)) (picture h),
        ),
        length-glyphs (fit n text) ∙ ap (λ t. t * 6) (length-fit n text),
      )
