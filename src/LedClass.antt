-- ===== src/LedClass.antt =====
-- ledclass/ledclass_module.c: three LEDs of the kernel's LED class.
pub mod Pins
pub mod Probe
mod Tests
use raspberrypimodules.Prelude.{
  ℕ, ◌+◌, ◌*◌, ◌^◌, ◌/◌, ◌%◌, ◌⊎◌, inl, inr, Bool, true, false, ◌||◌, ◌&&◌, not, List, [], ◌∷◌,
  Option, none, some, ◌==◌, if◌then◌else◌, is_nil,
}
use raspberrypimodules.Prelude.Errno.{Ret, Errno}
use raspberrypimodules.LedModule.Init.{select_outputs, set_all_leds}

-- The beginnings that a label is compared with, and any other label.
pub data Label : Type 0 where
  red green blue other : Label

-- The register of the functions of the pins 20 to 29, the levels of the pins, and the LEDs that are registered,
-- by their masks, the latest first.
pub record Gpio : Type 0 where
  pub gpfsel : ℕ
  pub level : ℕ → Bool
  pub leds : List ℕ

-- Whether a mask has the bit of a pin.
abbrev pub has_pin : (mask pin : ℕ) → Bool
has_pin mask pin = mask / 2 ^ pin % 2 == 1

-- `iowrite32` to GPSET0 and GPCLR0: the pins of the mask go high or low.
abbrev pub gpset0 : (mask : ℕ) → Gpio → Gpio
gpset0 mask g = record g { level = λ pin. has_pin mask pin || g.level pin }

abbrev pub gpclr0 : (mask : ℕ) → Gpio → Gpio
gpclr0 mask g = record g { level = λ pin. not (has_pin mask pin) && g.level pin }

-- `GPIO_MASK_ALL_LEDS`: the bits of three pins in the register of the functions, from 6, 18 and 21 on.
abbrev pub gpio_mask_all_leds : ℕ
gpio_mask_all_leds = 7 * 2 ^ 21 + 7 * 2 ^ 6 + 7 * 2 ^ 18

-- `led_control` of the LED with a mask.
unfoldable pub led_control : (led_mask brightness : ℕ) → Gpio → Gpio
led_control led_mask brightness g =
    let cleared = gpclr0 gpio_mask_all_leds g in
    if not (brightness == 0) then gpset0 led_mask cleared else gpclr0 led_mask cleared

abbrev pub mask_of : Label → Option ℕ
mask_of Label.red = some (2 ^ 27)
mask_of Label.green = some (2 ^ 22)
mask_of Label.blue = some (2 ^ 26)
mask_of Label.other = none

-- A child node: its memory can be allocated, its label, and the error of `devm_led_classdev_register`.
pub record Child : Type 0 where
  pub allocated : Bool
  pub label : Label
  pub registered : Option Errno

-- The end of a round of the loop: the state of the next, or the result.
unfoldable pub register_led : Option Errno → (mask : ℕ) → Gpio → (Ret × Gpio) ⊎ Gpio
register_led none mask g = inr (record g { leds = mask ∷ g.leds })
register_led (some e) mask g = inl (Ret.error e, g)

unfoldable pub add_led : Option ℕ → Option Errno → Gpio → (Ret × Gpio) ⊎ Gpio
add_led none r g = inl (Ret.error Errno.einval, g)
add_led (some mask) r g = register_led r mask g

unfoldable pub probe_child : Child → Gpio → (Ret × Gpio) ⊎ Gpio
probe_child c g =
    if c.allocated
    then add_led (mask_of c.label) c.registered g
    else inl (Ret.error Errno.enomem, g)

-- The next round of the loop, or its end.
abbrev pub next : (Gpio → Ret × Gpio) → (Ret × Gpio) ⊎ Gpio → Ret × Gpio
next f (inl r) = r
next f (inr g) = f g

unfoldable pub probe_children : List Child → Gpio → Ret × Gpio
probe_children [] g = (Ret.value 0, g)
probe_children (c ∷ rest) g = next (λ h. probe_children rest h) (probe_child c g)

-- `ledclass_probe`: whether there is a memory resource, and whether it can be mapped.
unfoldable pub ledclass_probe : (resource mapped : Bool) → List Child → Gpio → Ret × Gpio
ledclass_probe resource mapped children g =
    if not resource
    then (Ret.error Errno.einval, g)
    else (if not mapped
        then (Ret.error Errno.enomem, g)
        else (if is_nil children
            then (Ret.error Errno.einval, g)
            else probe_children children
                (gpclr0 set_all_leds (record g { gpfsel = select_outputs g.gpfsel }))))
