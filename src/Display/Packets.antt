-- ===== src/Display/Packets.antt =====
-- What the display's writes put on the bus.
use nuedc_control_freertos.Prelude.{
  ℕ, zero, suc, ◌-◌, ◌≤◌, true, not, List, [], ◌∷◌, ◌++◌, ◌≡◌, refl, ap, arith, length, take, drop,
  rev_onto, ◌==◌, if◌then◌else◌,
}
use nuedc_control_freertos.Platform.Poll.{wait_while, wait_while-keeps}
use nuedc_control_freertos.Platform.I2c.{
  I2cDevice, History, get_status, flush_tx, fill_tx, start_transfer, delay_cycles,
}
use nuedc_control_freertos.Platform.I2c.Transfer.{packets, last_fill, take_all}
use nuedc_control_freertos.Display.{
  Display, i2c_timeout, wait_until_idle, write_packet, write_chunks,
}

-- the bytes that the packets with a control byte have carried, the last one first
abbrev pub carried : ℕ → List (ℕ × List ℕ) → List ℕ
carried control [] = []
carried control ((_, []) ∷ ps) = carried control ps
carried control ((_, c ∷ bytes) ∷ ps) =
    if c == control then rev_onto bytes (carried control ps) else carried control ps

pub rev_onto-append : (xs ys zs : List ℕ) → rev_onto (xs ++ ys) zs ≡ rev_onto ys (rev_onto xs zs)
rev_onto-append [] ys zs = refl
rev_onto-append (x ∷ xs) ys zs = rev_onto-append xs ys (x ∷ zs)

take-drop : (n : ℕ) (xs : List ℕ) → take n xs ++ drop n xs ≡ xs
take-drop zero xs = refl
take-drop (suc n) [] = refl
take-drop (suc n) (x ∷ xs) = ap (λ t. x ∷ t) (take-drop n xs)

length-drop : (n : ℕ) (xs : List ℕ) → length (drop n xs) ≡ length xs - n
length-drop zero xs = omega arith
length-drop (suc n) [] = omega arith
length-drop (suc n) (x ∷ xs) = omega (arith, length-drop n xs)

module _ (dev : I2cDevice) (d : Display) where
  wait_until_idle-keeps :
      (h : History)
      → (packets d.i2c (wait_until_idle dev d h).0 ≡ packets d.i2c h)
        × (last_fill d.i2c (wait_until_idle dev d h).0 ≡ last_fill d.i2c h)
  unfolding wait_until_idle
  wait_until_idle-keeps h =
      let busy = λ (t : History). (dev.status d.i2c t).busy in
      let waits = λ (t : History). not (dev.status d.i2c t).idle in
      let look = get_status d.i2c in
      let h1 = (wait_while look busy (i2c_timeout - 1) h).0 in
      ground (
        arith,
        wait_while-keeps (packets d.i2c) look (λ t. refl) busy (i2c_timeout - 1) h,
        wait_while-keeps (packets d.i2c) look (λ t. refl) waits (i2c_timeout - 1) h1,
        wait_while-keeps (last_fill d.i2c) look (λ t. refl) busy (i2c_timeout - 1) h,
        wait_while-keeps (last_fill d.i2c) look (λ t. refl) waits (i2c_timeout - 1) h1,
      )

  -- a packet that succeeds has started one write, with its bytes
  pub write_packet-packet :
      (packet : List ℕ) (h : History)
      → (write_packet dev d packet h).1 ≡ true
      → packets d.i2c (write_packet dev d packet h).0 ≡ (d.address, packet) ∷ packets d.i2c h
  unfolding write_packet
  write_packet-packet packet h e =
      let h1 = (wait_until_idle dev d h).0 in
      ground (
        arith,
        take_all packet,
        wait_until_idle-keeps h,
        wait_until_idle-keeps (
            delay_cycles 30
            ∷ start_transfer d.i2c d.address (length packet)
            ∷ fill_tx d.i2c packet
            ∷ flush_tx d.i2c
            ∷ h1),
      )

  -- Writing a list of bytes, if it succeeds, adds the bytes in order to those carried with its
  -- control byte, and nothing to the others.
  pub write_chunks-carried :
      (control other fuel : ℕ) (bytes : List ℕ) (h : History)
      → (write_chunks dev d control fuel bytes h).1 ≡ true
      → carried other (packets d.i2c (write_chunks dev d control fuel bytes h).0) ≡ (
          if control == other
          then rev_onto bytes (carried other (packets d.i2c h))
          else carried other (packets d.i2c h))
  unfolding write_chunks
  write_chunks-carried control other fuel [] h e = ground arith
  write_chunks-carried control other zero (b ∷ bs) h e = cc
  write_chunks-carried control other (suc fuel) (b ∷ bs) h e =
      let packet = control ∷ take 7 (b ∷ bs) in
      let h1 = (write_packet dev d packet h).0 in
      ground (
        arith,
        write_packet-packet packet h,
        write_chunks-carried control other fuel (drop 7 (b ∷ bs)) h1,
        rev_onto-append (take 7 (b ∷ bs)) (drop 7 (b ∷ bs)) (carried other (packets d.i2c h)),
        take-drop 7 (b ∷ bs),
      )

  -- the rounds that a list takes are no more than its bytes
  pub write_chunks-fuel :
      (control n m : ℕ) (bytes : List ℕ) (h : History)
      → length bytes ≤ n
      → length bytes ≤ m
      → write_chunks dev d control n bytes h ≡ write_chunks dev d control m bytes h
  unfolding write_chunks
  write_chunks-fuel control n m [] h le_n le_m = refl
  write_chunks-fuel control zero m (b ∷ bs) h le_n le_m = absurd (omega arith)
  write_chunks-fuel control (suc n) zero (b ∷ bs) h le_n le_m = absurd (omega arith)
  write_chunks-fuel control (suc n) (suc m) (b ∷ bs) h le_n le_m =
      let h1 = (write_packet dev d (control ∷ take 7 (b ∷ bs)) h).0 in
      let rest =
        write_chunks-fuel control n m (drop 7 (b ∷ bs)) h1
          (omega (arith, length-drop 7 (b ∷ bs), le_n))
          (omega (arith, length-drop 7 (b ∷ bs), le_m)) in
      ground (arith, rest)
