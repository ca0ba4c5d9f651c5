-- ===== src/Lcd/Brightness.antt =====
-- i2c_class/i2c_class.c: what `led_control` and the display files show.
use raspberrypimodules.Prelude.{
  ℕ, ◌/◌, ◌%◌, ◌≤◌, ◌<◌, ◌≡◌, refl, ap, ◌∙◌, true, List, ◌∷◌, arith, bit_or, ◌==◌, le→ltb, inl, inr,
  Bool-cases,
}
use raspberrypimodules.Prelude.Bytes.{bytes_pass, bytes_pass_at}
use raspberrypimodules.Prelude.Errno.{Ret}
use raspberrypimodules.Prelude.Strings.{same_string, command, on, off}
use raspberrypimodules.Lcd.Device.{
  Signal, Priv, Name, Led, sent, ltc3206_led_write, select_display, or_not_en_cs, set_en_cs,
  sub_select, rgb_select, set_nibble, show_led, led_control,
}
use raspberrypimodules.Lcd.Nibbles.{shown, Bytes, Works, Shown, set_nibble-Shown, put_main_halves}

-- For a brightness of at most 15, on the LED red, blue, green or sub, the nibble of the LED has the
-- brightness afterwards, every other nibble is as it was, the bytes are bytes, the new command is the
-- one message that is sent, and the result is 0 or the error of the bus.
pub led_control-Shown :
    (bus : Ret) (b : ℕ) (led : Led) (p : Priv)
    → Works led.name
    → Bytes p.command
    → b ≤ 15
    → let (r, led', q) = led_control bus b led p in
      Shown led.name b p.command q.command
      × (q.signals ≡ Signal.message q.command ∷ p.signals)
      × (led'.brightness ≡ b)
      × (r ≡ sent bus)
unfolding led_control show_led ltc3206_led_write
led_control-Shown bus b led p w i lb =
    let small : b % 256 ≡ b = omega arith in
    rw (le→ltb 15 b lb, small) (set_nibble-Shown led.name p.command w i lb, refl, refl, refl)

-- The LED main is never shown: its brightness, whatever it is, leaves its nibble as it was and sets that
-- of the LED sub, which has the same byte, to 0.
led_control-main :
    (bus : Ret) (b k : ℕ) (p : Priv)
    → Bytes p.command
    → b ≤ 15
    → let (r, led, q) = led_control bus b (record { name = Name.main; brightness = k }) p in
      (shown Name.main q.command ≡ shown Name.main p.command)
      × (shown Name.sub q.command ≡ 0)
      × (led.brightness ≡ b)
      × (r ≡ sent bus)
unfolding led_control show_led ltc3206_led_write set_nibble shown
led_control-main bus b k p i lb =
    let small : b % 256 ≡ b = omega arith in
    let (up, low) = put_main_halves i.byte2 lb in rw (le→ltb 15 b lb, small) (up, low, refl, refl)

-- The string decides on the pin and on the result only.
select_display-command : (buf : List ℕ) (p : Priv) → (select_display buf p).1.command ≡ p.command
unfolding select_display
select_display-command buf p = elim (Bool-cases (same_string (command buf) on)) [
  | inl e ↦ rw e refl
  | inr e ↦ elim (Bool-cases (same_string (command buf) off)) [
    | inl f ↦ rw (e, f) refl
    | inr f ↦ rw (e, f) refl
  ]
]

sub_select-command :
    (bus : Ret) (buf : List ℕ) (p : Priv) → (sub_select bus buf p).1.command ≡ set_en_cs p.command
unfolding sub_select ltc3206_led_write
sub_select-command bus buf p = select_display-command buf _

rgb_select-command :
    (bus : Ret) (buf : List ℕ) (p : Priv)
    → (rgb_select bus buf p).1.command ≡ or_not_en_cs p.command
unfolding rgb_select ltc3206_led_write
rgb_select-command bus buf p = select_display-command buf _

after_sub : bytes_pass (λ v. bit_or (bit_or v 4) 251 == 255) 256 ≡ true
unfolding bytes_pass
after_sub = refl

-- `rgb_select` is to clear the bit that `sub_select` sets in the first byte, but whatever is written to
-- both files, and whatever the first byte was, all its bits are set then, so that the LED red, whose
-- nibble is in that byte, has its full brightness of 15.
rgb_select-sub_select :
    (bus1 bus2 : Ret) (buf1 buf2 : List ℕ) (p : Priv)
    → p.command.byte0 < 256
    → let q = (rgb_select bus2 buf2 (sub_select bus1 buf1 p).1).1 in
      (q.command.byte0 ≡ 255) × (shown Name.red q.command ≡ 15)
unfolding shown
rgb_select-sub_select bus1 bus2 buf1 buf2 p h =
    let set_twice : (bit_or (bit_or p.command.byte0 4) 251 == 255) ≡ true =
      bytes_pass_at (λ v. bit_or (bit_or v 4) 251 == 255) 256 h after_sub in
    let ends : (rgb_select bus2 buf2 (sub_select bus1 buf1 p).1).1.command.byte0 ≡ 255 =
      ap (λ c. c.byte0) (rgb_select-command bus2 buf2 (sub_select bus1 buf1 p).1)
      ∙ ap (λ c. bit_or c.byte0 251) (sub_select-command bus1 buf1 p)
      ∙ ground arith in
    (ends, ap (λ n. n / 16) ends)
