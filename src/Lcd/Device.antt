-- ===== src/Lcd/Device.antt =====
-- i2c_class/i2c_class.c: the command of the LTC3206, the brightness of its LEDs and the sysfs files.
use raspberrypimodules.Prelude.{
  ℕ, ◌*◌, ◌%◌, Bool, true, false, List, ◌∷◌, ltb, if◌then◌else◌, length, bit_and, bit_or,
}
use raspberrypimodules.Prelude.Errno.{Ret, Errno}
use raspberrypimodules.Prelude.Strings.{same_string, command, on, off}

-- The three bytes of `led_priv.command`.
pub record Command : Type 0 where
  pub byte0 : ℕ
  pub byte1 : ℕ
  pub byte2 : ℕ

-- What the driver does to the chip: a message on the bus, and a level of the pin `display_cs`.
pub data Signal : Type 0 where
  message : Command → Signal
  display_cs : Bool → Signal

-- `struct led_priv` without its pointers, with the signals, the latest first.
pub record Priv : Type 0 where
  pub command : Command
  pub signals : List Signal

-- The names that `led_control` and `ltc3206_probe` compare with, and any other name.
pub data Name : Type 0 where
  red blue green main sub other : Name

-- `struct led_device`
pub record Led : Type 0 where
  pub name : Name
  pub brightness : ℕ

-- `ret >= 0` becomes 0
abbrev pub sent : Ret → Ret
sent (Ret.value n) = Ret.value 0
sent (Ret.error e) = Ret.error e

-- `ltc3206_led_write`, where `bus` is the result of `i2c_master_send`.
unfoldable pub ltc3206_led_write : (bus : Ret) → Priv → Ret × Priv
ltc3206_led_write bus p = (sent bus, record p { signals = Signal.message p.command ∷ p.signals })

-- `display_cs` is set to a level, and to the other one 100 to 200 us later.
abbrev pub pulse : (first second : Bool) → Priv → Priv
pulse first second p = record p {
  signals = Signal.display_cs second ∷ Signal.display_cs first ∷ p.signals;
}

-- The string of `sub_select` and `rgb_select` decides on the level.
unfoldable pub select_display : List ℕ → Priv → Ret × Priv
select_display buf p =
    if same_string (command buf) on
    then (Ret.value (length buf), pulse true false p)
    else (if same_string (command buf) off
        then (Ret.value (length buf), pulse false true p)
        else (Ret.error Errno.einval, p))

-- `command[0] |= EN_CS_SHIFT`, which is 4
abbrev pub set_en_cs : Command → Command
set_en_cs c = record c { byte0 = bit_or c.byte0 4 }

-- `command[0] |= ~(EN_CS_SHIFT)` in a byte
abbrev pub or_not_en_cs : Command → Command
or_not_en_cs c = record c { byte0 = bit_or c.byte0 251 }

-- `sub_select`
unfoldable pub sub_select : (bus : Ret) → List ℕ → Priv → Ret × Priv
sub_select bus buf p =
    select_display buf (ltc3206_led_write bus (record p { command = set_en_cs p.command })).1

-- `rgb_select`
unfoldable pub rgb_select : (bus : Ret) → List ℕ → Priv → Ret × Priv
rgb_select bus buf p =
    select_display buf (ltc3206_led_write bus (record p { command = or_not_en_cs p.command })).1

-- A byte keeps its lower nibble and takes `brightness << shift & 0xF0`, with `step` for `1 << shift`;
-- or the upper nibble and 0x0F.
abbrev pub put_upper : (step brightness byte : ℕ) → ℕ
put_upper step brightness byte = bit_or (bit_and byte 15) (bit_and (brightness * step) 240)

abbrev pub put_lower : (step brightness byte : ℕ) → ℕ
put_lower step brightness byte = bit_or (bit_and byte 240) (bit_and (brightness * step) 15)

-- The nibbles that `led_control` writes.
unfoldable pub set_nibble : Name → (brightness : ℕ) → Command → Command
set_nibble Name.red b c = record c { byte0 = put_upper 16 b c.byte0 }
set_nibble Name.blue b c = record c { byte1 = put_upper 16 b c.byte1 }
set_nibble Name.green b c = record c { byte1 = put_lower 1 b c.byte1 }
set_nibble Name.main b c = record c { byte2 = put_lower 16 b c.byte2 }
set_nibble Name.sub b c = record c { byte2 = put_lower 1 b c.byte2 }
set_nibble Name.other b c = c

-- `led_control` of a brightness that fits.
unfoldable pub show_led : (bus : Ret) → Led → Priv → Ret × Led × Priv
show_led bus led p =
    let (r, q) =
      ltc3206_led_write bus (record p { command = set_nibble led.name led.brightness p.command }) in
    (r, led, q)

-- `led_control`; an `enum led_brightness` is not negative, and the field is a byte.
unfoldable pub led_control : (bus : Ret) → (brightness : ℕ) → Led → Priv → Ret × Led × Priv
led_control bus brightness led p =
    let led' = record led { brightness = brightness % 256 } in
    if ltb 15 brightness then (Ret.error Errno.einval, led', p) else show_led bus led' p
