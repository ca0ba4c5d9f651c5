-- ===== src/Timer/Unwind.antt =====
-- timer_module/timer_module.c: what probe leaves where it fails, and what remove takes back.
use raspberrypimodules.Prelude.{
  ℕ, ◌%◌, ◌/◌, ◌^◌, ◌≡◌, ◌≢◌, refl, sym, ◌∙◌, zero, suc, subst, ◌≤◌, false, List, [], ◌∷◌, Option,
  none, some, arith, length, get_or, set,
}
use raspberrypimodules.Prelude.Int.{ℤ}
use raspberrypimodules.Prelude.Errno.{Ret}
use raspberrypimodules.Timer.Device.{
  Driver, Event, put_field, set_gpio_fn, handle, run, expire, blink_handler, set_gpio_output,
  register_misc, create_file, led_probe, led_remove,
}
use raspberrypimodules.Timer.Blink.{store_period-timer}

expire-gpsel : (t : Option ℤ) (d : Driver) → (expire t d).gpsel ≡ d.gpsel
unfolding expire blink_handler set_gpio_output
expire-gpsel none d = refl
expire-gpsel (some delay) d = refl

handle-gpsel : (e : Event) (d : Driver) → (handle e d).gpsel ≡ d.gpsel
unfolding handle
handle-gpsel Event.expires d = expire-gpsel d.timer d
handle-gpsel (Event.period parsed count) d = (store_period-timer parsed count d).3

run-gpsel : (es : List Event) (d : Driver) → (run es d).gpsel ≡ d.gpsel
unfolding run
run-gpsel [] d = refl
run-gpsel (e ∷ es) d = run-gpsel es (handle e d) ∙ handle-gpsel e d

-- The registers of the pins' functions: `after` is `before` with 0 for pin 27.
pub record Cleared (before after : List ℕ) : Type 0 where
  pub pin27 : (get_or after 2 0 / 2 ^ 21) % 8 ≡ 0
  pub lower : get_or after 2 0 % 2 ^ 21 ≡ get_or before 2 0 % 2 ^ 21
  pub upper : get_or after 2 0 / 2 ^ 24 ≡ get_or before 2 0 / 2 ^ 24
  pub others : (i : ℕ) → i ≢ 2 → get_or after i 0 ≡ get_or before i 0

put_field-twice :
    (x : ℕ)
    → ((put_field 21 0 (put_field 21 1 x) / 2 ^ 21) % 8 ≡ 0)
      × (put_field 21 0 (put_field 21 1 x) % 2 ^ 21 ≡ x % 2 ^ 21)
      × (put_field 21 0 (put_field 21 1 x) / 2 ^ 24 ≡ x / 2 ^ 24)
unfolding put_field
put_field-twice x = (omega arith, omega arith, omega arith)

abbrev switch_pin : ℕ → List ℕ → List ℕ
switch_pin fn_code g = set g 2 (put_field 21 fn_code (get_or g 2 0))

switch_pin-Cleared : (g : List ℕ) → 3 ≤ length g → Cleared g (switch_pin 0 (switch_pin 1 g))
switch_pin-Cleared [] h = absurd (ground arith)
switch_pin-Cleared (a ∷ []) h = absurd (ground arith)
switch_pin-Cleared (a ∷ b ∷ []) h = absurd (ground arith)
switch_pin-Cleared (a ∷ b ∷ x ∷ g) h =
    let (p, l, u) = put_field-twice x in record { pin27 = p; lower = l; upper = u; others = others }
  where
    others :
        (i : ℕ)
        → i ≢ 2
        → get_or (switch_pin 0 (switch_pin 1 (a ∷ b ∷ x ∷ g))) i 0 ≡ get_or (a ∷ b ∷ x ∷ g) i 0
    others zero n = refl
    others (suc zero) n = refl
    others (suc (suc zero)) n = absurd (n refl)
    others (suc (suc (suc i))) n = refl

-- The driver after a probe that succeeds, some events, and the remove.
abbrev pub removed : List Event → Driver → Driver
removed es d = (led_remove (run es (led_probe none none d).1)).1

-- After a probe that succeeds, whatever happens while the driver is bound, `led_remove` takes back the device,
-- the attribute and the timer; the function of pin 27 is 0, and the functions of all other pins are what they
-- were before the probe. The registers are at least three.
pub led_probe-led_remove :
    (es : List Event) (d : Driver)
    → 3 ≤ length d.gpsel
    → ((led_probe none none d).0 ≡ Ret.value 0)
      × ((removed es d).timer ≡ none)
      × ((removed es d).attribute ≡ false)
      × ((removed es d).misc ≡ false)
      × Cleared d.gpsel (removed es d).gpsel
unfolding led_probe led_remove create_file register_misc set_gpio_fn
led_probe-led_remove es d h = (
  refl,
  refl,
  refl,
  refl,
  subst (λ g. Cleared d.gpsel (switch_pin 0 g)) (sym (run-gpsel es (led_probe none none d).1))
      (switch_pin-Cleared d.gpsel h),
)
