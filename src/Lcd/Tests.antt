-- ===== src/Lcd/Tests.antt =====
-- The theorems on i2c_class/i2c_class.c at a chip that shows something already, and at device trees.
use raspberrypimodules.Prelude.{◌≡◌, refl, true, [], ◌∷◌, none, some, arith}
use raspberrypimodules.Prelude.Errno.{Ret, Errno}
use raspberrypimodules.Lcd.Device.{Signal, Priv, Name, Led, led_control}
use raspberrypimodules.Lcd.Nibbles.{Bytes, Shown}
use raspberrypimodules.Lcd.Brightness.{led_control-Shown}
use raspberrypimodules.Lcd.Probe.{Child, ltc3206_probe}
use raspberrypimodules.Lcd.Probe.Unwind.{Ended, ltc3206_probe-held}
use raspberrypimodules.Lcd.Probe.Leaks.{all_well}

-- Red at 3, blue at 15, green at 2, main at 0 and sub at 7.
abbrev lit : Priv
lit = record { command = record { byte0 = 48; byte1 = 242; byte2 = 7 }; signals = [] }

lit-Bytes : Bytes lit.command
lit-Bytes = record { byte0 = omega arith; byte1 = omega arith; byte2 = omega arith }

abbrev green_led : Led
green_led = record { name = Name.green; brightness = 2 }

led_control-Shown_example :
    let (r, led, q) = led_control (Ret.value 3) 9 green_led lit in
    Shown Name.green 9 lit.command q.command
    × (q.signals ≡ Signal.message q.command ∷ [])
    × (led.brightness ≡ 9)
    × (r ≡ Ret.value 0)
led_control-Shown_example =
    led_control-Shown (Ret.value 3) 9 green_led lit (cc, cc) lit-Bytes (omega arith)

-- The children of the device tree: one that registers, and others.
abbrev sub_child : Child
sub_child = record { allocated = true; label = some Name.sub; registered = none }

abbrev red_child : Child
red_child = record { allocated = true; label = some Name.red; registered = some Errno.ebusy }

abbrev main_child : Child
main_child = record { allocated = true; label = some Name.main; registered = some Errno.ebusy }

ltc3206_probe-held_example :
    Ended [] (ltc3206_probe all_well (sub_child ∷ red_child ∷ main_child ∷ []) [])
ltc3206_probe-held_example =
    ltc3206_probe-held all_well (sub_child ∷ red_child ∷ main_child ∷ []) [] refl
