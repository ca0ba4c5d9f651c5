-- ===== src/LedModule/Tests.antt =====
-- The theorems on led_module/led_module.c at the red LED.
use raspberrypimodules.Prelude.{◌^◌, ◌≡◌, refl, false, [], ◌∷◌, none, some, arith, replicate}
use raspberrypimodules.Prelude.Errno.{Ret}
use raspberrypimodules.LedModule.Device.{
  Store, LedDev, initial_value, on, line_feed, led_write, led_read, led_probe, register_led,
  mask_of, ledred,
}
use raspberrypimodules.LedModule.Value.{reads, led_read-overrun, led_write-led_read}

-- As `led_probe` makes it.
abbrev red : LedDev
red = record { led_mask = 2 ^ 27; led_value = initial_value; stores = [] }

probed : led_probe none ledred ≡ (Ret.value 0, some red)
unfolding led_probe register_led mask_of
probed = refl

led_read-overrun_example : reads (replicate 9 false) red ≡ none
led_read-overrun_example = led_read-overrun (replicate 9 false) red refl refl

led_write-led_read_example :
    (r : Ret) × (dev1 : LedDev) × (dev2 : LedDev) × (led_write false
        (111 ∷ 110 ∷ line_feed ∷ [])
        red
      ≡ some (r, dev1))
    × (led_read false 0 dev1
        ≡ some (record { ret = Ret.value 8; copied = 111 ∷ 110 ∷ line_feed ∷ []; pos = 1 }, dev2))
    × (dev1.stores ≡ Store.gpset0 (2 ^ 27) ∷ [])
led_write-led_read_example = led_write-led_read on red refl (omega arith)
