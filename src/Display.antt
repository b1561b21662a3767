-- ===== src/Display.antt =====
-- modules/display/ssd1306_mspm0.c: the display's packets, cursor and text, over the I2C controller.
-- A text is its bytes before the NUL.
pub mod Font
pub mod Packets
pub mod Cursor
pub mod Text
mod Tests
use nuedc_control_freertos.Prelude.{
  ℕ, zero, suc, ◌+◌, ◌-◌, ◌*◌, ◌/◌, ◌%◌, Bool, true, false, ◌&&◌, ◌||◌, not, Option, none, some,
  List, [], ◌∷◌, ◌++◌, length, take, drop, replicate, get_or, ltb, leb, u8, ◌==◌, if◌then◌else◌,
}
use nuedc_control_freertos.Platform.Poll.{wait_while}
use nuedc_control_freertos.Platform.I2c.{
  I2cDevice, History, get_status, reset_transfer, enable, disable, flush_tx, fill_tx,
  start_transfer, delay_cycles,
}
use nuedc_control_freertos.Display.Font.{font5x7}

pub record Display : Type 0 where
  pub i2c : ℕ
  pub address : ℕ

abbrev pub control_command : ℕ
control_command = 0x00

abbrev pub control_data : ℕ
control_data = 0x40

abbrev pub page_count : ℕ
page_count = 8

abbrev pub cell_width : ℕ
cell_width = 6

abbrev pub width : ℕ
width = 128

abbrev pub text_columns : ℕ
text_columns = 21

abbrev pub text_rows : ℕ
text_rows = 8

-- `SSD1306_I2C_TIMEOUT`; a wait fails at the read that brings it to 0
abbrev pub i2c_timeout : ℕ
i2c_timeout = 200000

unfoldable pub normalize_char : ℕ → ℕ
normalize_char c = if ltb c 32 || ltb 126 c then 63 - 32 else c - 32

unfoldable pub glyph_of : ℕ → List ℕ
unfolding normalize_char font5x7
glyph_of c = get_or font5x7 (normalize_char c) [] ++ (0 ∷ [])

module _ (dev : I2cDevice) (d : Display) where
  unfoldable pub reset_controller_transfer : History → History
  reset_controller_transfer h = enable d.i2c ∷ reset_transfer d.i2c ∷ disable d.i2c ∷ h

  unfoldable pub wait_until_idle : History → History × Bool
  wait_until_idle h =
      let (h1, free) =
        wait_while (get_status d.i2c) (λ t. (dev.status d.i2c t).busy) (i2c_timeout - 1) h in
      let (h2, idle) =
        wait_while (get_status d.i2c) (λ t. not (dev.status d.i2c t).idle) (i2c_timeout - 1) h1 in
      if free
      then (if idle then (get_status d.i2c ∷ h2, not (dev.status d.i2c h2).error) else (h2, false))
      else (h1, false)

  unfoldable pub write_packet : List ℕ → History → History × Bool
  unfolding wait_until_idle reset_controller_transfer
  write_packet packet h =
      let (h1, ready) = wait_until_idle h in
      let h2 = flush_tx d.i2c ∷ h1 in
      let h3 = fill_tx d.i2c packet ∷ h2 in
      -- the 30 rounds of `__NOP`
      let h4 = delay_cycles 30 ∷ start_transfer d.i2c d.address (length packet) ∷ h3 in
      let (h5, done) = wait_until_idle h4 in
      if (d.i2c == 0) || (length packet == 0)
      then (h, false)
      else if not ready
      then (reset_controller_transfer h1, false)
      else if not (dev.filled d.i2c packet h2 == length packet)
      then (h3, false)
      else if done
      then (h5, true)
      else (reset_controller_transfer h5, false)

  -- The two list writers differ in the control byte. A round takes at most seven bytes, so there are
  -- no more rounds than bytes.
  unfoldable pub write_chunks : ℕ → ℕ → List ℕ → History → History × Bool
  unfolding write_packet
  write_chunks control fuel [] h = (h, true)
  write_chunks control zero (_ ∷ _) h = (h, false)
  write_chunks control (suc fuel) (b ∷ bs) h =
      let (h1, ok) = write_packet (control ∷ take 7 (b ∷ bs)) h in
      let rest = write_chunks control fuel (drop 7 (b ∷ bs)) h1 in if ok then rest else (h1, false)

  unfoldable pub write_command_list : List ℕ → History → History × Bool
  unfolding write_chunks
  write_command_list commands h = write_chunks control_command (length commands) commands h

  unfoldable pub write_data_list : List ℕ → History → History × Bool
  unfolding write_chunks
  write_data_list bytes h = write_chunks control_data (length bytes) bytes h

  unfoldable pub set_cursor : ℕ → ℕ → History → History × Bool
  unfolding write_command_list
  set_cursor row col h =
      let column = u8 (col * cell_width) in
      if leb text_rows row || leb text_columns col
      then (h, false)
      else write_command_list (u8 (0xB0 + row) ∷ (column % 16) ∷ (0x10 + (column / 16) % 16) ∷ []) h

  unfoldable pub write_char : ℕ → History → History × Bool
  unfolding write_data_list glyph_of
  write_char c h = write_data_list (glyph_of c) h

  abbrev pub init_commands : List ℕ
  init_commands =
      0xAE ∷ 0x20 ∷ 0x02 ∷ 0xB0 ∷ 0xC8 ∷ 0x00 ∷ 0x10 ∷ 0x40 ∷ 0x81 ∷ 0x7F ∷ 0xA1 ∷ 0xA6 ∷ 0xA8
      ∷ 0x3F ∷ 0xA4 ∷ 0xD3 ∷ 0x00 ∷ 0xD5 ∷ 0x80 ∷ 0xD9 ∷ 0xF1 ∷ 0xDA ∷ 0x12 ∷ 0xDB ∷ 0x40 ∷ 0x8D
      ∷ 0x14 ∷ 0xAF ∷ []

  -- the loop over a row, by the columns that are left
  unfoldable pub clear_columns : ℕ → ℕ → History → History × Bool
  unfolding write_data_list
  clear_columns zero left h = (h, leb left 0)
  clear_columns (suc fuel) left h =
      let count = if ltb 7 left then 7 else left in
      let (h1, ok) = write_data_list (replicate count 0) h in
      let rest = clear_columns fuel (left - 7) h1 in
      if left == 0 then (h, true) else if ok then rest else (h1, false)

  -- the loop over the rows, by the rows that are left
  unfoldable pub clear_rows : ℕ → History → History × Bool
  unfolding write_command_list clear_columns
  clear_rows zero h = (h, true)
  clear_rows (suc left) h =
      let row = page_count - suc left in
      let (h1, set) = write_command_list (u8 (0xB0 + row) ∷ 0x00 ∷ 0x10 ∷ []) h in
      let (h2, cleared) = clear_columns width width h1 in
      let rest = clear_rows left h2 in
      if set then (if cleared then rest else (h2, false)) else (h1, false)

  unfoldable pub clear : History → History × Bool
  unfolding clear_rows
  clear h = clear_rows page_count h

  -- the loop over the text, at the cell that comes next
  unfoldable pub write_cells : ℕ → List ℕ → History → History × Bool × ℕ
  unfolding write_char
  write_cells cell [] h = (h, true, cell)
  write_cells cell (c ∷ cs) h =
      let (h1, ok) = write_char c h in
      let rest = write_cells (cell + 1) cs h1 in
      if ltb cell text_columns then (if ok then rest else (h1, false, cell)) else (h, true, cell)

  -- the loop that pads with blanks, by the cells that are left
  unfoldable pub pad_cells : ℕ → History → History × Bool
  unfolding write_char
  pad_cells zero h = (h, true)
  pad_cells (suc left) h =
      let (h1, ok) = write_char 32 h in
      let rest = pad_cells left h1 in if ok then rest else (h1, false)

  unfoldable pub write_string : ℕ → ℕ → Option (List ℕ) → History → History × Bool
  unfolding set_cursor write_cells
  write_string row col none h = (h, false)
  write_string row col (some text) h =
      let (h1, set) = set_cursor row col h in
      let (h2, ok, _) = write_cells col text h1 in if set then (h2, ok) else (h1, false)

  unfoldable pub write_string_padded : ℕ → ℕ → Option (List ℕ) → History → History × Bool
  unfolding set_cursor write_cells pad_cells
  write_string_padded row col none h = (h, false)
  write_string_padded row col (some text) h =
      let (h1, set) = set_cursor row col h in
      let (h2, ok, cell) = write_cells col text h1 in
      let padded = pad_cells (text_columns - cell) h2 in
      if set then (if ok then padded else (h2, false)) else (h1, false)

-- `s_i2c` and `s_address` are set first.
unfoldable pub init : I2cDevice → ℕ → ℕ → History → Display × History × Bool
unfolding write_command_list clear reset_controller_transfer
init dev i2c address h =
    let d : Display = record { i2c = i2c; address = address } in
    let (h1, ok) =
      write_command_list dev d (init_commands dev d) (reset_controller_transfer dev d h) in
    let (h2, cleared) = clear dev d h1 in if ok then (d, h2, cleared) else (d, h1, false)
