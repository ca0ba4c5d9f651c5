-- ===== src/LedClass/Tests.antt =====
-- The theorem on ledclass/ledclass_module.c with the three LEDs, and calls of all of them.
use raspberrypimodules.Prelude.{◌≡◌, refl, true, false, List, [], ◌∷◌, none, map}
use raspberrypimodules.Prelude.Errno.{Ret, Errno}
use raspberrypimodules.LedModule.Init.{Outputs}
use raspberrypimodules.LedClass.{
  Label, Gpio, register_led, add_led, probe_child, probe_children, ledclass_probe,
}
use raspberrypimodules.LedClass.Pins.{Led, Call, run, red_on, blue_on, green_on}
use raspberrypimodules.LedClass.Probe.{child_of, registered, ledclass_probe-run}

abbrev reset : Gpio
reset = record { gpfsel = 0; level = λ _. true; leds = [] }

-- A label that is none of the three is refused.
refused :
    (ledclass_probe true true
      (record { allocated = true; label = Label.other; registered = none } ∷ [])
      reset).0
    ≡ Ret.error Errno.einval
unfolding ledclass_probe probe_children probe_child add_led register_led
refused = refl

ledclass_probe-run_example :
    (h : Gpio) × (ledclass_probe true true
        (map child_of (Led.red ∷ Led.green ∷ Led.blue ∷ []))
        reset
      ≡ (Ret.value 0, h))
    × (h.leds ≡ registered (Led.red ∷ Led.green ∷ Led.blue ∷ []) [])
    × Outputs 0 h.gpfsel
    × ((calls : List Call)
        → ((run calls h).level 27 ≡ red_on calls false)
          × ((run calls h).level 26 ≡ blue_on calls false)
          × ((run calls h).level 22 ≡ green_on calls false))
ledclass_probe-run_example = ledclass_probe-run Led.red (Led.green ∷ Led.blue ∷ []) reset
