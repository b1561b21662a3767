-- ===== src/Display/Cursor.antt =====
-- Where the display puts what it is sent: its page and its column, as the controller reads the
-- commands in page addressing mode.
use nuedc_control_freertos.Prelude.{
  ℕ, zero, suc, ◌+◌, ◌-◌, ◌*◌, ◌/◌, ◌%◌, ◌<◌, true, ◌&&◌, List, [], ◌∷◌, ◌≡◌, refl, arith, length,
  ltb, leb, u8, if◌then◌else◌,
}
use nuedc_control_freertos.Platform.I2c.{I2cDevice, History}
use nuedc_control_freertos.Platform.I2c.Transfer.{packets}
use nuedc_control_freertos.Display.{
  Display, control_command, control_data, text_columns, text_rows, glyph_of, write_command_list,
  write_data_list, set_cursor, write_char, write_cells, pad_cells,
}
use nuedc_control_freertos.Display.Packets.{carried, write_chunks-carried}

-- Of the commands, the last one first: 0xB0 to 0xB7 choose the page, 0x00 to 0x0F the lower four
-- bits of the column, and 0x10 to 0x1F its upper bits.
abbrev pub page : List ℕ → ℕ
page [] = 0
page (c ∷ cs) = if leb 0xB0 c && leb c 0xB7 then c - 0xB0 else page cs

abbrev lower : List ℕ → ℕ
lower [] = 0
lower (c ∷ cs) = if ltb c 0x10 then c else lower cs

abbrev upper : List ℕ → ℕ
upper [] = 0
upper (c ∷ cs) = if leb 0x10 c && ltb c 0x20 then c - 0x10 else upper cs

abbrev pub column : List ℕ → ℕ
column cs = upper cs * 16 + lower cs

cursor-commands :
    (row col : ℕ) (cs : List ℕ)
    → row < text_rows
    → col < text_columns
    → let x = u8 (col * 6) in
      let sent = (0x10 + (x / 16) % 16) ∷ (x % 16) ∷ u8 (0xB0 + row) ∷ cs in
      (page sent ≡ row) × (column sent ≡ col * 6)
cursor-commands row col cs r c = ground arith

module _ (dev : I2cDevice) (d : Display) where
  -- the commands that the display has been sent
  abbrev pub commands : History → List ℕ
  commands h = carried control_command (packets d.i2c h)

  write_char-commands :
      (c : ℕ) (h : History)
      → (write_char dev d c h).1 ≡ true
      → commands (write_char dev d c h).0 ≡ commands h
  unfolding write_char write_data_list
  write_char-commands c h e =
      write_chunks-carried dev d control_data control_command (length (glyph_of c)) (glyph_of c) h e

  pub write_cells-commands :
      (cell : ℕ) (text : List ℕ) (h : History)
      → (write_cells dev d cell text h).1 ≡ true
      → commands (write_cells dev d cell text h).0 ≡ commands h
  unfolding write_cells
  write_cells-commands cell [] h e = refl
  write_cells-commands cell (c ∷ cs) h e =
      let h1 = (write_char dev d c h).0 in
      ground (arith, write_char-commands c h, write_cells-commands (cell + 1) cs h1)

  pub pad_cells-commands :
      (left : ℕ) (h : History)
      → (pad_cells dev d left h).1 ≡ true
      → commands (pad_cells dev d left h).0 ≡ commands h
  unfolding pad_cells
  pad_cells-commands zero h e = refl
  pad_cells-commands (suc left) h e =
      let h1 = (write_char dev d 32 h).0 in
      ground (arith, write_char-commands 32 h, pad_cells-commands left h1)

  -- a cursor that is set is where the row and the column of characters say
  pub set_cursor-commands :
      (row col : ℕ) (h : History)
      → row < text_rows
      → col < text_columns
      → (set_cursor dev d row col h).1 ≡ true
      → (page (commands (set_cursor dev d row col h).0) ≡ row)
        × (column (commands (set_cursor dev d row col h).0) ≡ col * 6)
  unfolding set_cursor write_command_list
  set_cursor-commands row col h r c e =
      let x = u8 (col * 6) in
      let sent = u8 (0xB0 + row) ∷ (x % 16) ∷ (0x10 + (x / 16) % 16) ∷ [] in
      ground (
        arith,
        write_chunks-carried dev d control_command control_command 3 sent h,
        cursor-commands row col (commands h) r c,
      )
