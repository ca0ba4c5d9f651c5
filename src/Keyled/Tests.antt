-- ===== src/Keyled/Tests.antt =====
-- The theorems on keyled/keyled_rpi_class.c at concrete LEDs.
use raspberrypimodules.Prelude.{ℕ, true, [], ◌∷◌, none, some, refl, arith, List}
use raspberrypimodules.Keyled.Device.{Priv, Event, drive}
use raspberrypimodules.Keyled.Flags.{Sound, Kept, drive-Sound}
use raspberrypimodules.Prelude.{◌≡◌}
use raspberrypimodules.Prelude.Errno.{Ret}
use raspberrypimodules.Keyled.Probe.{Label, Trigger, Child, Board, my_probe, my_remove}
use raspberrypimodules.Keyled.Unwind.{my_probe-my_remove}

-- Three LEDs that are off, as the probe leaves them.
abbrev probed : Priv
probed = record {
  leds = true ∷ true ∷ true ∷ [];
  led_flag = 0;
  task_flag = 0;
  period = 10;
  task = none;
  value = true;
}

probed-Sound : Sound probed
probed-Sound = record { flag = refl; low = omega arith; high = omega arith }

-- "on" and "off" with the line feed of `echo`.
abbrev on_line : List ℕ
on_line = 111 ∷ 110 ∷ 10 ∷ []

abbrev off_line : List ℕ
off_line = 111 ∷ 102 ∷ 102 ∷ 10 ∷ []

abbrev evening : List Event
evening =
    Event.set_led 1 on_line
    ∷ Event.blink_on none 2 on_line
    ∷ Event.round
    ∷ Event.blink_on none 0 on_line
    ∷ Event.key2
    ∷ Event.set_period (some 500) 4
    ∷ Event.blink_off off_line
    ∷ []

drive-Sound_example : Kept (drive evening probed)
drive-Sound_example = drive-Sound evening probed-Sound

abbrev led_child : Child
led_child = record {
  label = some Label.led;
  trigger = none;
  allocated = true;
  created = true;
  gpio = none;
  irq = none;
  request = none;
}

abbrev key_child : Label → Trigger → Child
key_child label trigger = record led_child { label = some label; trigger = some trigger }

abbrev tree : List Child
tree =
    led_child
    ∷ key_child Label.mikrobus_key_1 Trigger.falling
    ∷ key_child Label.mikrobus_key_2 Trigger.both
    ∷ []

my_probe-my_remove_example :
    (b : Board) × (q : Priv) × (b' : Board) × (my_probe true true tree [] ≡ some (Ret.value 0, b))
    × (b.num_leds ≡ 1)
    × (my_remove probed b ≡ some (Ret.value 0, q, b'))
    × (q.task ≡ none)
    × (b'.held ≡ [])
my_probe-my_remove_example = my_probe-my_remove tree [] probed refl refl probed-Sound
