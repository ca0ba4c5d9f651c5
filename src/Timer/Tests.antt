-- ===== src/Timer/Tests.antt =====
-- The theorems on timer_module/timer_module.c as the module is loaded, and as its timer runs.
use raspberrypimodules.Prelude.{◌≡◌, refl, false, [], ◌∷◌, ◌++◌, none, some, arith, List}
use raspberrypimodules.Prelude.Int.{ℤ, pos, negsuc}
use raspberrypimodules.Prelude.Errno.{Ret}
use raspberrypimodules.Timer.Device.{Driver, Event, run, led_probe}
use raspberrypimodules.Timer.Blink.{alternating, run-alternating}
use raspberrypimodules.Timer.Period.{Steady, run-Steady}
use raspberrypimodules.Timer.Unwind.{Cleared, removed, led_probe-led_remove}

abbrev loaded : Driver
loaded = record {
  gpsel = 0 ∷ 0 ∷ 817889280 ∷ 7 ∷ 0 ∷ 0 ∷ [];
  outputs = [];
  on = false;
  blink_period = pos 1000;
  timer = none;
  attribute = false;
  misc = false;
}

abbrev blinking : Driver
blinking = record loaded { timer = some (pos 1000) }

abbrev minute : List Event
minute =
    Event.expires
    ∷ Event.period (some (pos 50)) 3
    ∷ Event.expires
    ∷ Event.period (some (pos 9)) 2
    ∷ Event.period (some (negsuc 4)) 3
    ∷ Event.period none 2
    ∷ Event.expires
    ∷ []

run-alternating_example :
    ((run minute blinking).outputs ≡ alternating 3 false ++ [])
    × ((later : ℤ) × ((run minute blinking).timer ≡ some later))
run-alternating_example = run-alternating minute blinking (pos 1000) refl

blinking-Steady : Steady blinking
blinking-Steady = record { period = omega arith; delay = omega arith }

run-Steady_example : Steady (run minute blinking)
run-Steady_example =
    run-Steady minute (tt, (omega arith, (tt, (omega arith, (omega arith, (tt, (tt, tt)))))))
      blinking-Steady

led_probe-led_remove_example :
    ((led_probe none none loaded).0 ≡ Ret.value 0)
    × ((removed minute loaded).timer ≡ none)
    × ((removed minute loaded).attribute ≡ false)
    × ((removed minute loaded).misc ≡ false)
    × Cleared loaded.gpsel (removed minute loaded).gpsel
led_probe-led_remove_example = led_probe-led_remove minute loaded (omega arith)
