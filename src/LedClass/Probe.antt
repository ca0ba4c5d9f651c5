-- ===== src/LedClass/Probe.antt =====
-- ledclass/ledclass_module.c: `ledclass_probe` where nothing fails, and the calls behind it.
use raspberrypimodules.Prelude.{ℕ, ◌^◌, ◌≡◌, refl, true, false, List, [], ◌∷◌, none, map}
use raspberrypimodules.Prelude.Errno.{Ret}
use raspberrypimodules.LedModule.Init.{
  Outputs, select_outputs, set_all_leds, select_outputs-Outputs,
}
use raspberrypimodules.LedClass.{
  Label, Gpio, gpclr0, Child, register_led, add_led, probe_child, probe_children, ledclass_probe,
}
use raspberrypimodules.LedClass.Pins.{Led, pin_of, Call, run, red_on, blue_on, green_on, run-levels}

-- The node of an LED, whose memory can be allocated and which can be registered.
abbrev pub child_of : Led → Child
child_of Led.red = record { allocated = true; label = Label.red; registered = none }
child_of Led.green = record { allocated = true; label = Label.green; registered = none }
child_of Led.blue = record { allocated = true; label = Label.blue; registered = none }

-- The masks of LEDs, in front of those registered before.
abbrev pub registered : List Led → (before : List ℕ) → List ℕ
registered [] before = before
registered (l ∷ rest) before = registered rest (2 ^ pin_of l ∷ before)

probe_children_lem :
    (leds : List Led) (g : Gpio)
    → probe_children (map child_of leds) g
      ≡ (Ret.value 0, record g { leds = registered leds g.leds })
unfolding probe_children probe_child add_led register_led
probe_children_lem [] g = refl
probe_children_lem (Led.red ∷ rest) g =
    probe_children_lem rest (record g { leds = 2 ^ 27 ∷ g.leds })
probe_children_lem (Led.green ∷ rest) g =
    probe_children_lem rest (record g { leds = 2 ^ 22 ∷ g.leds })
probe_children_lem (Led.blue ∷ rest) g =
    probe_children_lem rest (record g { leds = 2 ^ 26 ∷ g.leds })

-- Where the device tree has at least one LED and nothing fails, `ledclass_probe` returns 0, registers every LED
-- of the tree and makes the pins outputs. After any calls behind it, red and blue are on where the latest call for
-- each switched it on, green only where the latest call of all switched green on, and without calls all are off.
pub ledclass_probe-run :
    (l : Led) (rest : List Led) (g : Gpio)
    → (h : Gpio) × (ledclass_probe true true (map child_of (l ∷ rest)) g ≡ (Ret.value 0, h))
      × (h.leds ≡ registered (l ∷ rest) g.leds)
      × Outputs g.gpfsel h.gpfsel
      × ((calls : List Call)
          → ((run calls h).level 27 ≡ red_on calls false)
            × ((run calls h).level 26 ≡ blue_on calls false)
            × ((run calls h).level 22 ≡ green_on calls false))
unfolding ledclass_probe
ledclass_probe-run l rest g =
    let ready = gpclr0 set_all_leds (record g { gpfsel = select_outputs g.gpfsel }) in
    let probed = record ready { leds = registered (l ∷ rest) g.leds } in
    (
      probed,
      probe_children_lem (l ∷ rest) ready,
      refl,
      select_outputs-Outputs g.gpfsel,
      λ calls. run-levels calls probed,
    )
