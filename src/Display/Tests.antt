-- ===== src/Display/Tests.antt =====
-- Examples of the display: a controller that is always idle and takes every byte.
use nuedc_control_freertos.Prelude.{
  ◌-◌, ◌*◌, true, false, some, [], ◌∷◌, ◌≡◌, refl, length, rev_onto,
}
use nuedc_control_freertos.Platform.Poll.{wait_while}
use nuedc_control_freertos.Platform.I2c.{I2cDevice}
use nuedc_control_freertos.Display.{Display, glyph_of, write_string_padded}
use nuedc_control_freertos.Display.Cursor.{page, column, commands}
use nuedc_control_freertos.Display.Text.{picture, glyphs, fit, write_string_padded-picture}

abbrev idle : I2cDevice
idle = record {
  status = λ inst h. record { error = false; idle = true; busy = false; busy_bus = false };
  filled = λ inst bytes h. length bytes;
  rx_empty = λ inst h. true;
  received = λ inst h. 0;
}

abbrev display : Display
display = record { i2c = 1; address = 0x3C }

-- the digit 1 in the last two cells of row 3
write_string_padded-picture_example :
    (page (commands idle display (write_string_padded idle display 3 19 (some (49 ∷ [])) []).0) ≡ 3)
    × (column (commands idle display (write_string_padded idle display 3 19 (some (49 ∷ [])) []).0)
        ≡ 114)
    × (picture idle display (write_string_padded idle display 3 19 (some (49 ∷ [])) []).0
        ≡ rev_onto (glyphs (fit (21 - 19) (49 ∷ []))) [])
    × (length (glyphs (fit (21 - 19) (49 ∷ []))) ≡ (21 - 19) * 6)
unfolding write_string_padded wait_while
write_string_padded-picture_example =
    write_string_padded-picture idle display 3 19 (49 ∷ []) [] refl

one_and_blank :
    glyphs (fit 2 (49 ∷ [])) ≡ 0 ∷ 0x42 ∷ 0x7f ∷ 0x40 ∷ 0 ∷ 0 ∷ 0 ∷ 0 ∷ 0 ∷ 0 ∷ 0 ∷ 0 ∷ []
unfolding glyphs fit glyph_of
one_and_blank = refl
