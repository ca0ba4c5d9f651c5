-- ===== src/Keyled/Flags.antt =====
-- keyled/keyled_rpi_class.c: the flags, the thread and the period.
use raspberrypimodules.Prelude.{
  ℕ, ◌%◌, ◌≤◌, ◌≡◌, refl, true, inl, inr, List, [], ◌∷◌, Option, none, some, arith, ◌==◌, ◌||◌,
  Bool-cases,
}
use raspberrypimodules.Prelude.Errno.{Errno}
use raspberrypimodules.Prelude.Options.{◌>>=◌}
use raspberrypimodules.Prelude.Words.{int_add, int_sub, int_lt, int_mod}
use raspberrypimodules.Prelude.Strings.{command, same_string, on, off}
use raspberrypimodules.Keyled.Device.{
  Priv, Event, flash_led, led_flash, kthread_stop, stop_task, switch_led, set_led_store, clear_lit,
  start_task, blink_led, blink_on_led_store, blink_off_led_store, set_period_store, bounded,
  key_isr1, key_isr2, handle, drive,
}

-- Whether a thread runs, as a flag.
abbrev pub runs : Option ℕ → ℕ
runs none = 0
runs (some i) = 1

-- The flag says whether a thread runs, and the period is between 10 and 10000.
pub record Sound (s : Priv) : Type 0 where
  pub flag : s.task_flag ≡ runs s.task
  pub low : 10 ≤ s.period
  pub high : s.period ≤ 10000

abbrev pub Kept : Option Priv → Type 0
Kept none = ⊥
Kept (some t) = Sound t

bounded_low : (n : ℕ) → (10 ≤ bounded n) × (bounded n ≤ 10000)
bounded_low n = (ground arith, ground arith)

-- Whatever the period was, also one that is not set yet or wraps around, each key leaves it between 10
-- and 10000.
key_isr_bounds :
    (s : Priv)
    → (10 ≤ (key_isr1 s).period)
      × ((key_isr1 s).period ≤ 10000)
      × (10 ≤ (key_isr2 s).period)
      × ((key_isr2 s).period ≤ 10000)
unfolding key_isr1 key_isr2
key_isr_bounds s =
    let (a, b) = bounded_low (int_add s.period 10) in
    let (c, d) = bounded_low (int_sub s.period 10) in (a, b, c, d)

pub thread_of :
    (task : Option ℕ) (n : ℕ) → n ≡ runs task → (n == 1) ≡ true → (j : ℕ) × (task ≡ some j)
thread_of none n f e = absurd (ground arith)
thread_of (some j) n f e = (j, refl)

module _ {s : Priv} (i : Sound s) where
  -- Where the flag is set there is a thread to stop.
  stop_task-Sound : Kept (stop_task s)
  unfolding stop_task kthread_stop
  stop_task-Sound = elim (Bool-cases (s.task_flag == 1)) [
    | inr e ↦ rw e i
    | inl e ↦
        let (j, at) = thread_of s.task s.task_flag i.flag e in
        simp (e, at) (record { flag = refl; low = i.low; high = i.high })
  ]

  switch_led-Sound : (j : ℕ) (buf : List ℕ) → Sound (switch_led j buf s).1
  unfolding switch_led
  switch_led-Sound j buf = elim (Bool-cases (same_string (command buf) on)) [
    | inl e ↦ elim (Bool-cases (s.led_flag == 1)) [
      | inl f ↦ rw (e, f) (record { flag = i.flag; low = i.low; high = i.high })
      | inr f ↦ rw (e, f) (record { flag = i.flag; low = i.low; high = i.high })
    ]
    | inr e ↦ elim (Bool-cases (same_string (command buf) off)) [
      | inl f ↦ rw (e, f) (record { flag = i.flag; low = i.low; high = i.high })
      | inr f ↦ rw (e, f) i
    ]
  ]

  clear_lit-Sound : Sound (clear_lit s)
  clear_lit-Sound = elim (Bool-cases (s.led_flag == 1)) [
    | inl e ↦ rw e (record { flag = i.flag; low = i.low; high = i.high })
    | inr e ↦ rw e i
  ]

  blink_off_led_store-Sound : (buf : List ℕ) → Kept (blink_off_led_store buf s >>= λ r. some r.1)
  unfolding blink_off_led_store kthread_stop
  blink_off_led_store-Sound buf = elim (Bool-cases (same_string (command buf) off)) [
    | inr e ↦ simp e i
    | inl e ↦ elim (Bool-cases (s.task_flag == 1)) [
      | inr f ↦ simp (e, f) i
      | inl f ↦
          let (j, at) = thread_of s.task s.task_flag i.flag f in
          simp (e, f, at) (record { flag = refl; low = i.low; high = i.high })
    ]
  ]

  key_isr1-Sound : Sound (key_isr1 s)
  unfolding key_isr1
  key_isr1-Sound =
      let (low, high) = bounded_low (int_add s.period 10) in
      record { flag = i.flag; low = low; high = high }

  key_isr2-Sound : Sound (key_isr2 s)
  unfolding key_isr2
  key_isr2-Sound =
      let (low, high) = bounded_low (int_sub s.period 10) in
      record { flag = i.flag; low = low; high = high }

  set_period_store-Sound :
      (scanned : Option ℕ) (count : ℕ) → Sound (set_period_store scanned count s).1
  unfolding set_period_store
  set_period_store-Sound none count = i
  set_period_store-Sound (some n) count =
      elim (Bool-cases (int_lt (n % int_mod) 10 || int_lt 10000 (n % int_mod))) [
        | inl e ↦ rw e i
        | inr e ↦ rw e (record { flag = i.flag; low = ground arith; high = ground arith })
      ]

  led_flash-Sound : Sound (led_flash s)
  unfolding led_flash
  led_flash-Sound = flashed s.task
    where
      flashed : (task : Option ℕ) → Sound (flash_led task s)
      flashed none = i
      flashed (some j) = record { flag = i.flag; low = i.low; high = i.high }

  start_task-Sound :
      (failed : Option Errno) (j : ℕ) (buf : List ℕ) → Sound (start_task failed j buf s).1
  start_task-Sound none j buf = record { flag = refl; low = i.low; high = i.high }
  start_task-Sound (some e) j buf = i

  blink_led-Sound :
      (failed : Option Errno) (j : ℕ) (buf : List ℕ) → Sound (blink_led failed j buf s).1
  unfolding blink_led
  blink_led-Sound failed j buf = elim (Bool-cases (same_string (command buf) on)) [
    | inr e ↦ rw e i
    | inl e ↦ elim (Bool-cases (s.task_flag == 0)) [
      | inl f ↦ rw (e, f) (start_task-Sound failed j buf)
      | inr f ↦ rw (e, f) i
    ]
  ]

switched :
    (m : Option Priv) (j : ℕ) (buf : List ℕ)
    → Kept m
    → Kept (m >>= (λ t. some (switch_led j buf t)) >>= λ r. some r.1)
switched none j buf k = k
switched (some t) j buf k = switch_led-Sound k j buf

set_led_store-Sound :
    (j : ℕ) (buf : List ℕ) {s : Priv} → Sound s → Kept (set_led_store j buf s >>= λ r. some r.1)
unfolding set_led_store
set_led_store-Sound j buf {s} i = switched (stop_task s) j buf (stop_task-Sound i)

handle-Sound : (e : Event) {s : Priv} → Sound s → Kept (handle e s)
unfolding handle blink_on_led_store
handle-Sound (Event.set_led j buf) i = set_led_store-Sound j buf i
handle-Sound (Event.blink_on failed j buf) i = blink_led-Sound (clear_lit-Sound i) failed j buf
handle-Sound (Event.blink_off buf) i = blink_off_led_store-Sound i buf
handle-Sound (Event.set_period scanned count) i = set_period_store-Sound i scanned count
handle-Sound Event.key1 i = key_isr1-Sound i
handle-Sound Event.key2 i = key_isr2-Sound i
handle-Sound Event.round i = led_flash-Sound i

-- No sequence of writes to the sysfs files, key presses and rounds of the thread, from a state in which
-- the flag says whether the thread runs and the period is between 10 and 10000, stops a thread that
-- does not run, and the state that it ends in is such a state.
pub drive-Sound : (events : List Event) {s : Priv} → Sound s → Kept (drive events s)
unfolding drive
drive-Sound [] i = i
drive-Sound (e ∷ rest) {s} i =
    continue (handle e s) (drive rest) (λ t. drive-Sound rest) (handle-Sound e i)
  where
    continue :
        (m : Option Priv) (f : Priv → Option Priv)
        → ((t : Priv) → Sound t → Kept (f t))
        → Kept m
        → Kept (m >>= f)
    continue none f g k = k
    continue (some t) f g k = g t k
