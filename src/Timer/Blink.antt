-- ===== src/Timer/Blink.antt =====
-- timer_module/timer_module.c: how the LED blinks, and how fast.
use raspberrypimodules.Prelude.{
  ℕ, zero, suc, ◌≡◌, refl, sym, ap, ◌∙◌, Bool, not, List, [], ◌∷◌, ◌++◌, append_assoc, Option, none,
  some, inl, inr, Bool-cases,
}
use raspberrypimodules.Prelude.Int.{ℤ, below}
use raspberrypimodules.Timer.Device.{
  Output, Driver, Event, led_gpio_pin, output_store, store_period, handle, run, expire,
  blink_handler, set_gpio_output,
}

-- How often the timer expires.
abbrev pub fires : List Event → ℕ
fires [] = 0
fires (Event.expires ∷ es) = suc (fires es)
fires (Event.period parsed count ∷ es) = fires es

-- The last `n` stores of an LED that alternates, the latest first, after the state `on`.
abbrev pub alternating : ℕ → Bool → List Output
alternating zero on = []
alternating (suc n) on = alternating n (not on) ++ (output_store led_gpio_pin (not on) ∷ [])

-- A write of the period leaves the timer and the outputs.
pub store_period-timer :
    (parsed : Option ℤ) (count : ℕ) (d : Driver)
    → ((store_period parsed count d).1.timer ≡ d.timer)
      × ((store_period parsed count d).1.on ≡ d.on)
      × ((store_period parsed count d).1.outputs ≡ d.outputs)
      × ((store_period parsed count d).1.gpsel ≡ d.gpsel)
unfolding store_period
store_period-timer none count d = (refl, refl, refl, refl)
store_period-timer (some v) count d = elim (Bool-cases (below v 10)) [
  | inl e ↦ rw e (refl, refl, refl, refl)
  | inr e ↦ rw e (refl, refl, refl, refl)
]

-- From a pending timer on, whatever is written to `period` meanwhile: each time the timer expires pin 27 gets
-- one store, the stores set and clear it in turn, and the timer is pending again.
pub run-alternating :
    (es : List Event) (d : Driver) (delay : ℤ)
    → d.timer ≡ some delay
    → ((run es d).outputs ≡ alternating (fires es) d.on ++ d.outputs)
      × ((later : ℤ) × ((run es d).timer ≡ some later))
unfolding run handle expire blink_handler set_gpio_output
run-alternating [] d delay h = (refl, (delay, h))
run-alternating (Event.expires ∷ es) d delay h = rw h (
    let (o, t) =
      run-alternating es
        (record d {
          on = not d.on;
          outputs = output_store led_gpio_pin (not d.on) ∷ d.outputs;
          timer = some d.blink_period;
        })
        d.blink_period refl in
    (o ∙ sym (append_assoc (alternating (fires es) (not d.on)) _ d.outputs), t))
run-alternating (Event.period parsed count ∷ es) d delay h =
    let (t, o, s, g) = store_period-timer parsed count d in
    let d' = (store_period parsed count d).1 in
    let (os, l) = run-alternating es d' delay (t ∙ h) in
    (
      os
          ∙ ap (λ on. alternating (fires es) on ++ d'.outputs) o
          ∙ ap (λ os. alternating (fires es) d.on ++ os) s,
      l,
    )
