-- ===== src/KeyledModule/Tests.antt =====
-- The theorems on keyled/keyled_module.c at a device tree with a key.
use raspberrypimodules.Prelude.{◌≡◌, true, List, [], ◌∷◌, none, some, refl}
use raspberrypimodules.Prelude.Errno.{Errno}
use raspberrypimodules.Keyled.Probe
use raspberrypimodules.Keyled.Probe.{Label, Trigger, Child}
use raspberrypimodules.KeyledModule.{my_probe}
use raspberrypimodules.KeyledModule.Equal.{relabelled, my_probe-my_probe}

abbrev second_key : Child
second_key = record {
  label = some Label.key_2;
  trigger = some Trigger.falling;
  allocated = true;
  created = true;
  gpio = none;
  irq = none;
  request = none;
}

abbrev lost_led : Child
lost_led = record second_key { label = some Label.led; gpio = some Errno.ebusy }

abbrev children : List Child
children = second_key ∷ lost_led ∷ second_key ∷ []

my_probe-my_probe_example :
    my_probe true true children [] ≡ Probe.my_probe true true (relabelled children) []
my_probe-my_probe_example =
    my_probe-my_probe true true children [] (λ e. cc) (refl, (tt, (refl, tt)))
