-- ===== src/LedClass/Pins.antt =====
-- ledclass/ledclass_module.c: the levels of the pins after the LED class has called `led_control`.
use raspberrypimodules.Prelude.{
  ℕ, ◌^◌, ◌≡◌, refl, Bool, false, not, List, [], ◌∷◌, ◌==◌, ◌∙◌, arith,
}
use raspberrypimodules.LedClass.{Gpio, led_control}

-- The LEDs that the driver registers, each with its pin.
pub data Led : Type 0 where
  red green blue : Led

abbrev pub pin_of : Led → ℕ
pin_of Led.red = 27
pin_of Led.green = 22
pin_of Led.blue = 26

-- A call of `brightness_set`.
pub data Call : Type 0 where
  brightness_set : Led → ℕ → Call

-- The calls one after the other, the latest first.
unfoldable pub run : List Call → Gpio → Gpio
run [] g = g
run (Call.brightness_set led b ∷ earlier) g = led_control (2 ^ pin_of led) b (run earlier g)

-- Whether the latest call of red, and of blue, switched it on; without one, what it was first.
abbrev pub red_on : List Call → (first : Bool) → Bool
red_on [] first = first
red_on (Call.brightness_set Led.red b ∷ earlier) first = not (b == 0)
red_on (Call.brightness_set Led.green b ∷ earlier) first = red_on earlier first
red_on (Call.brightness_set Led.blue b ∷ earlier) first = red_on earlier first

abbrev pub blue_on : List Call → (first : Bool) → Bool
blue_on [] first = first
blue_on (Call.brightness_set Led.red b ∷ earlier) first = blue_on earlier first
blue_on (Call.brightness_set Led.green b ∷ earlier) first = blue_on earlier first
blue_on (Call.brightness_set Led.blue b ∷ earlier) first = not (b == 0)

-- Whether the latest call of all switched green on; without one, what it was first.
abbrev pub green_on : List Call → (first : Bool) → Bool
green_on [] first = first
green_on (Call.brightness_set Led.red b ∷ earlier) first = false
green_on (Call.brightness_set Led.green b ∷ earlier) first = not (b == 0)
green_on (Call.brightness_set Led.blue b ∷ earlier) first = false

-- The levels of the LEDs' pins after one call: what the masks say of them, by evaluation.
controlled :
    (led : Led) (b : ℕ) (g : Gpio)
    → ((led_control (2 ^ pin_of led) b g).level 27
        ≡ red_on (Call.brightness_set led b ∷ []) (g.level 27))
      × ((led_control (2 ^ pin_of led) b g).level 26
          ≡ blue_on (Call.brightness_set led b ∷ []) (g.level 26))
      × ((led_control (2 ^ pin_of led) b g).level 22
          ≡ green_on (Call.brightness_set led b ∷ []) (g.level 22))
unfolding led_control
controlled Led.red b g = ground arith
controlled Led.green b g = ground arith
controlled Led.blue b g = ground arith

-- After any calls, red and blue are as the latest call for each of them says, but green is on only where the
-- latest call of all is one that switches green on: every call for another LED switches green off.
pub run-levels :
    (calls : List Call) (g : Gpio)
    → ((run calls g).level 27 ≡ red_on calls (g.level 27))
      × ((run calls g).level 26 ≡ blue_on calls (g.level 26))
      × ((run calls g).level 22 ≡ green_on calls (g.level 22))
unfolding run
run-levels [] g = (refl, refl, refl)
run-levels (Call.brightness_set Led.red b ∷ earlier) g =
    let now = controlled Led.red b (run earlier g) in
    let before = run-levels earlier g in (now.0, now.1 ∙ before.1, now.2)
run-levels (Call.brightness_set Led.green b ∷ earlier) g =
    let now = controlled Led.green b (run earlier g) in
    let before = run-levels earlier g in (now.0 ∙ before.0, now.1 ∙ before.1, now.2)
run-levels (Call.brightness_set Led.blue b ∷ earlier) g =
    let now = controlled Led.blue b (run earlier g) in
    let before = run-levels earlier g in (now.0 ∙ before.0, now.1, now.2)
