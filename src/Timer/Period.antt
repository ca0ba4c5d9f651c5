-- ===== src/Timer/Period.antt =====
-- timer_module/timer_module.c: the bounds of the period.
use raspberrypimodules.Prelude.{
  ℕ, suc, ◌^◌, ◌*◌, ◌≤◌, ◌<◌, ◌≡◌, refl, sym, ap, subst, ◌∙◌, true, false, List, [], ◌∷◌, Option,
  none, some, inl, inr, arith, Bool-cases,
}
use raspberrypimodules.Prelude.Int.{ℤ, pos, negsuc, below}
use raspberrypimodules.Prelude.Errno.{Ret, Errno}
use raspberrypimodules.Timer.Device.{
  Driver, Event, to_int, store_period, handle, run, expire, blink_handler, set_gpio_output,
}

-- A period of at least ten milliseconds.
abbrev pub AtLeast10 : ℤ → Type 0
AtLeast10 (pos n) = 10 ≤ n
AtLeast10 (negsuc n) = ⊥

abbrev pub Slow : Option ℤ → Type 0
Slow none = Unit {0}
Slow (some delay) = AtLeast10 delay

-- The period and the pending timer, if there is one.
pub record Steady (d : Driver) : Type 0 where
  pub period : AtLeast10 d.blink_period
  pub delay : Slow d.timer

-- What `kstrtol` may return where a `long` has 32 bits.
abbrev pub Fits : Event → Type 0
Fits Event.expires = Unit {0}
Fits (Event.period none count) = Unit {0}
Fits (Event.period (some (pos n)) count) = n < 2 ^ 31
Fits (Event.period (some (negsuc n)) count) = n < 2 ^ 31

abbrev pub AllFit : List Event → Type 0
AllFit [] = Unit {0}
AllFit (e ∷ es) = Fits e × AllFit es

to_int-pos : (n : ℕ) → n < 2 ^ 31 → to_int (pos n) ≡ pos n
to_int-pos n h = ground arith

expire-Steady : (t : Option ℤ) {d : Driver} → Steady d → Steady (expire t d)
unfolding expire blink_handler set_gpio_output
expire-Steady none s = s
expire-Steady (some delay) s = record { period = s.period; delay = s.period }

store_period-refused :
    (v : ℤ) (count : ℕ) (d : Driver)
    → below v 10 ≡ true
    → store_period (some v) count d ≡ (Ret.error Errno.einval, d)
unfolding store_period
store_period-refused v count d h = rw h refl

store_period-stored :
    (v : ℤ) (count : ℕ) (d : Driver)
    → below v 10 ≡ false
    → store_period (some v) count d ≡ (Ret.value count, record d { blink_period = to_int v })
unfolding store_period
store_period-stored v count d h = rw h refl

handle-Steady : (e : Event) {d : Driver} → Fits e → Steady d → Steady (handle e d)
unfolding handle store_period
handle-Steady Event.expires {d} f s = expire-Steady d.timer s
handle-Steady (Event.period none count) f s = s
handle-Steady (Event.period (some (pos n)) count) {d} f s = elim (Bool-cases (below (pos n) 10)) [
  | inl e ↦ subst (λ p. Steady p.1) (sym (store_period-refused (pos n) count d e)) s
  | inr e ↦
      subst (λ p. Steady p.1) (sym (store_period-stored (pos n) count d e))
        (record { period = subst AtLeast10 (sym (to_int-pos n f)) (ground arith); delay = s.delay })
]
handle-Steady (Event.period (some (negsuc n)) count) f s = s

-- Where a `long` has 32 bits, whatever is written to `period` and whenever the timer expires: the period stays
-- at least ten milliseconds, and so does the delay of the pending timer.
pub run-Steady : (es : List Event) {d : Driver} → AllFit es → Steady d → Steady (run es d)
unfolding run
run-Steady [] f s = s
run-Steady (e ∷ es) (f, fs) s = run-Steady es fs (handle-Steady e f s)

wide :
    (k count : ℕ) (d : Driver)
    → store_period (some (pos (suc k * 2 ^ 32))) count d
      ≡ (Ret.value count, record d { blink_period = pos 0 })
wide k count d =
    let wraps : to_int (pos (suc k * 2 ^ 32)) ≡ pos 0 = ground arith in
    store_period-stored (pos (suc k * 2 ^ 32)) count d (ground arith)
    ∙ ap (λ v. (Ret.value count, record d { blink_period = v })) wraps

expire-pending :
    (t : Option ℤ) (delay : ℤ) (d : Driver)
    → t ≡ some delay
    → (expire t d).timer ≡ some d.blink_period
unfolding expire blink_handler set_gpio_output
expire-pending t delay d h = rw h refl

-- Where a `long` has 64 bits, the test of `set_period` is passed by each multiple of 2 ^ 32 but 0: the
-- write succeeds and the period is 0, and when a pending timer expires next, it is armed with no delay.
store_period-wide :
    (k count : ℕ) (d : Driver) (delay : ℤ)
    → d.timer ≡ some delay
    → ((store_period (some (pos (suc k * 2 ^ 32))) count d).0 ≡ Ret.value count)
      × ((run (Event.period (some (pos (suc k * 2 ^ 32))) count ∷ Event.expires ∷ []) d).timer
          ≡ some (pos 0))
unfolding run handle
store_period-wide k count d delay h =
    let stored = sym (wide k count d) in
    (
      ap (λ p. p.0) (sym stored),
      subst (λ p. (expire p.1.timer p.1).timer ≡ some (pos 0)) stored
          (expire-pending d.timer delay (record d { blink_period = pos 0 }) h),
    )
