-- ===== src/LedModule/Init.antt =====
-- led_module/led_module.c: `led_init` and `led_exit`, which set up the pins of the LEDs.
use raspberrypimodules.Prelude.{
  ℕ, ◌+◌, ◌*◌, ◌/◌, ◌%◌, ◌^◌, ◌≡◌, refl, Bool, true, false, List, ◌∷◌, Option, none, some, arith,
}
use raspberrypimodules.Prelude.Options.{◌>>=◌}
use raspberrypimodules.Prelude.Ledger.{Resource, release}
use raspberrypimodules.Prelude.Errno.{Ret, Errno}
use raspberrypimodules.LedModule.Device.{Store}

-- What the module gives back: the registration of its driver, and the three registers that it maps.
pub data Part : Type 0 where
  driver gpfsel2 gpset0 gpclr0 : Part

abbrev same_part : Part → Part → Bool
same_part Part.driver Part.driver = true
same_part Part.gpfsel2 Part.gpfsel2 = true
same_part Part.gpset0 Part.gpset0 = true
same_part Part.gpclr0 Part.gpclr0 = true
same_part a b = false

instance abbrev pub part_resource : Resource Part
part_resource = record { same = same_part }

-- The register of the functions of the pins 20 to 29, the stores to the outputs (the latest first), and what
-- the module holds.
pub record Gpio : Type 0 where
  pub gpfsel : ℕ
  pub stores : List Store
  pub held : List Part

-- `GPIO_SET_ALL_LEDS`: the pins 22, 26 and 27.
abbrev pub set_all_leds : ℕ
set_all_leds = 2 ^ 27 + 2 ^ 22 + 2 ^ 26

-- `(read & ~GPIO_MASK_ALL_LEDS) | (GPIO_SET_FUNCTION_LEDS & GPIO_MASK_ALL_LEDS)`: the three bits from 6, 18 and
-- 21 on are 001, the others as they are.
unfoldable pub select_outputs : ℕ → ℕ
select_outputs read =
    read % 2 ^ 6
    + 2 ^ 6
    + (read / 2 ^ 9 % 2 ^ 9) * 2 ^ 9
    + 2 ^ 18
    + 2 ^ 21
    + (read / 2 ^ 24) * 2 ^ 24

-- `led_init` behind the registration of the driver. `ioremap` is taken to succeed, as the source does.
unfoldable pub map_registers : Gpio → Gpio
map_registers g = record g {
  gpfsel = select_outputs g.gpfsel;
  stores = Store.gpclr0 set_all_leds ∷ g.stores;
  held = Part.gpclr0 ∷ Part.gpset0 ∷ Part.gpfsel2 ∷ g.held;
}

-- `led_init`, with the error of `platform_driver_register` if it has one.
unfoldable pub led_init : Option Errno → Gpio → Ret × Gpio
led_init (some e) g = (Ret.error e, g)
led_init none g = (Ret.value 0, map_registers (record g { held = Part.driver ∷ g.held }))

-- `led_exit`; none gives back what is not held.
unfoldable pub led_exit : Gpio → Option Gpio
led_exit g = do
  h1 ← release Part.gpfsel2 g.held
  h2 ← release Part.gpset0 h1
  h3 ← release Part.gpclr0 h2
  h4 ← release Part.driver h3
  some (record g { stores = Store.gpclr0 set_all_leds ∷ g.stores; held = h4 })

-- The LEDs' pins are outputs, and the functions of the pins 20, 21, 23 to 25, 28 and 29 and the bits above
-- are what they were.
pub record Outputs (before after : ℕ) : Type 0 where
  pub pin22 : after / 2 ^ 6 % 8 ≡ 1
  pub pin26 : after / 2 ^ 18 % 8 ≡ 1
  pub pin27 : after / 2 ^ 21 % 8 ≡ 1
  pub pins20_21 : after % 2 ^ 6 ≡ before % 2 ^ 6
  pub pins23_25 : after / 2 ^ 9 % 2 ^ 9 ≡ before / 2 ^ 9 % 2 ^ 9
  pub above : after / 2 ^ 24 ≡ before / 2 ^ 24

pub select_outputs-Outputs : (read : ℕ) → Outputs read (select_outputs read)
unfolding select_outputs
select_outputs-Outputs read = record {
  pin22 = omega arith;
  pin26 = omega arith;
  pin27 = omega arith;
  pins20_21 = omega arith;
  pins23_25 = omega arith;
  above = omega arith;
}

-- Where the driver can be registered, `led_init` returns 0, makes the three LEDs' pins outputs, leaves the functions
-- of all other pins, and switches the LEDs off; `led_exit` then switches them off once more and gives back
-- all that the module holds.
pub led_init-led_exit :
    (g : Gpio)
    → (h : Gpio) × (led_init none g ≡ (Ret.value 0, h))
      × Outputs g.gpfsel h.gpfsel
      × (h.stores ≡ Store.gpclr0 set_all_leds ∷ g.stores)
      × (led_exit h
          ≡ some (record h { stores = Store.gpclr0 set_all_leds ∷ h.stores; held = g.held }))
unfolding led_init led_exit map_registers
led_init-led_exit g = (
  map_registers (record g { held = Part.driver ∷ g.held }),
  refl,
  select_outputs-Outputs g.gpfsel,
  refl,
  refl,
)
