-- ===== src/Keyled/Unwind.antt =====
-- keyled/keyled_rpi_class.c: what the probe holds, and what the removal gives back.
use raspberrypimodules.Prelude.{
  ℕ, suc, ◌+◌, ◌-◌, ◌≤◌, ◌<◌, ◌≡◌, refl, ap, sym, ◌∙◌, inl, inr, Bool, true, false, ◌&&◌, List, [],
  ◌∷◌, ◌++◌, Option, none, some, ◌==◌, length, arith, lt→ltb, le→ltb, Bool-cases, set, append-nil,
}
use raspberrypimodules.Prelude.Options.{◌>>=◌}
use raspberrypimodules.Prelude.Errno.{Ret, Errno}
use raspberrypimodules.Keyled.Device.{Priv, kthread_stop, stop_task}
use raspberrypimodules.Keyled.Flags.{Sound, runs, thread_of}
use raspberrypimodules.Keyled.Probe.{
  Part, part_resource, Held, Label, Trigger, Child, Board, Round, hold_from, unregister, next_child,
  led_device_register, store_led, get_gpiod, use_led, add_led, request_key, get_key_irq, add_key,
  add_child, probe_child, next, probe_children, create_class, my_probe, switch_off, my_remove,
}
use raspberrypimodules.Keyled.Ranges.{
  number-Apart, device-Apart, release_from-hold_from, hold_from-last,
}

abbrev pub ok : Option Errno → Bool
ok none = true
ok (some e) = false

abbrev pub known : Option Trigger → Bool
known none = false
known (some Trigger.other) = false
known (some t) = true

-- A child of which no call fails.
abbrev pub good_as : Child → Option Label → Bool
good_as c none = false
good_as c (some Label.led) = c.allocated && c.created && ok c.gpio
good_as c (some Label.mikrobus_key_1) = known c.trigger && ok c.irq && ok c.request
good_as c (some Label.mikrobus_key_2) = known c.trigger && ok c.irq && ok c.request
good_as c (some Label.key_1) = false
good_as c (some Label.key_2) = false
good_as c (some Label.other) = false

abbrev pub is_led : Option Label → ℕ
is_led (some Label.led) = 1
is_led label = 0

abbrev pub all_good : List Child → Bool
all_good [] = true
all_good (c ∷ rest) = good_as c c.label && all_good rest

abbrev pub led_count : List Child → ℕ
led_count [] = 0
led_count (c ∷ rest) = is_led c.label + led_count rest

-- The board with `n` LEDs in front of what is held otherwise.
abbrev pub with_leds : ℕ → Held → Board
with_leds n h = record { held = hold_from Part.device n 0 h; num_leds = n }

ok-none : (r : Option Errno) → ok r ≡ true → r ≡ none
ok-none none e = refl
ok-none (some x) e = cc

add_led-good :
    (room : ℕ) (c : Child) (n : ℕ) (h : Held)
    → (c.allocated && c.created && ok c.gpio) ≡ true
    → n < room
    → add_led room c (record { held = Part.child ∷ h; num_leds = n })
      ≡ some (inl (record { held = Part.device n ∷ h; num_leds = suc n }))
unfolding add_led led_device_register use_led get_gpiod store_led next_child
add_led-good room c n h g lt =
    let a : c.allocated ≡ true = ground arith in
    let b : c.created ≡ true = ground arith in
    let d : c.gpio ≡ none = ok-none c.gpio (ground arith) in simp (a, b, d, lt→ltb n room lt) refl

add_key-good :
    (failed : Errno → Board → Round) (c : Child) (trigger : Option Trigger) (n : ℕ) (h : Held)
    → (known trigger && ok c.irq && ok c.request) ≡ true
    → add_key failed c trigger (record { held = Part.child ∷ h; num_leds = n })
      ≡ some (inl (record { held = h; num_leds = n }))
unfolding add_key get_key_irq request_key next_child
add_key-good failed c none n h g = cc
add_key-good failed c (some Trigger.other) n h g = cc
add_key-good failed c (some Trigger.falling) n h g =
    simp (ok-none c.irq (ground arith), ok-none c.request (ground arith)) refl
add_key-good failed c (some Trigger.rising) n h g =
    simp (ok-none c.irq (ground arith), ok-none c.request (ground arith)) refl
add_key-good failed c (some Trigger.both) n h g =
    simp (ok-none c.irq (ground arith), ok-none c.request (ground arith)) refl

add_child-good :
    (room : ℕ) (c : Child) (label : Option Label) (n : ℕ) (h : Held)
    → good_as c label ≡ true
    → is_led label + n ≤ room
    → add_child room c label
        (record { held = Part.child ∷ hold_from Part.device n 0 h; num_leds = n })
      ≡ some (inl (with_leds (is_led label + n) h))
unfolding add_child
add_child-good room c none n h g le = cc
add_child-good room c (some Label.key_1) n h g le = cc
add_child-good room c (some Label.key_2) n h g le = cc
add_child-good room c (some Label.other) n h g le = cc
add_child-good room c (some Label.mikrobus_key_1) n h g le =
    add_key-good _ c c.trigger n _ g ∙ ap (λ m. some (inl (with_leds m h))) (omega arith)
add_child-good room c (some Label.mikrobus_key_2) n h g le =
    add_key-good _ c c.trigger n _ g ∙ ap (λ m. some (inl (with_leds m h))) (omega arith)
add_child-good room c (some Label.led) n h g le =
    add_led-good room c n _ g (omega arith)
    ∙ ap (λ l. some (inl (record { held = l; num_leds = suc n })))
        (ap (λ m. Part.device m ∷ hold_from Part.device n 0 h) (omega arith)
          ∙ sym (hold_from-last device-Apart n 0 h))
    ∙ ap (λ m. some (inl (with_leds m h))) (omega arith)

-- The rounds for children of which no call fails, in front of others.
probe_children-good :
    (room : ℕ) (children rest : List Child) (n : ℕ) (h : Held)
    → all_good children ≡ true
    → led_count children + n ≤ room
    → probe_children room (children ++ rest) (with_leds n h)
      ≡ probe_children room rest (with_leds (led_count children + n) h)
unfolding probe_children probe_child
probe_children-good room [] rest n h g le =
    ap (λ m. probe_children room rest (with_leds m h)) (omega arith)
probe_children-good room (c ∷ children) rest n h g le =
    let this : good_as c c.label ≡ true = ground arith in
    let others : all_good children ≡ true = ground arith in
    ap (λ m. m >>= λ r. next (λ b. probe_children room (children ++ rest) b) r)
      (add_child-good room c c.label n h this (omega arith))
    ∙ probe_children-good room children rest (is_led c.label + n) h others (omega arith)
    ∙ ap (λ m. probe_children room rest (with_leds m h)) (omega arith)

unregister-with_leds :
    (n : ℕ) (h : Held)
    → unregister (with_leds n (Part.led_class ∷ hold_from Part.number n 0 h))
      ≡ some (record { held = h; num_leds = n })
unfolding unregister
unregister-with_leds n h =
    simp
      (
        release_from-hold_from device-Apart n 0 (Part.led_class ∷ hold_from Part.number n 0 h),
        release_from-hold_from number-Apart n 0 h,
      )
      refl

no_thread : (task : Option ℕ) (n : ℕ) → n ≡ runs task → (n == 1) ≡ false → task ≡ none
no_thread none n f e = refl
no_thread (some j) n f e = absurd (ground arith)

stop_task-none : {p : Priv} → Sound p → (q : Priv) × (stop_task p ≡ some q) × (q.task ≡ none)
unfolding stop_task kthread_stop
stop_task-none {p} i = elim (Bool-cases (p.task_flag == 1)) [
  | inl e ↦
      let (j, at) = thread_of p.task p.task_flag i.flag e in
      (record p { leds = set p.leds j true; task = none; task_flag = 0 }, simp (e, at) refl, refl)
  | inr e ↦ (p, simp e refl, no_thread p.task p.task_flag i.flag e)
]

switch_off-task : (p : Priv) → (switch_off p).task ≡ p.task
switch_off-task p = elim (Bool-cases (p.led_flag == 1)) [ inl e ↦ rw e refl | inr e ↦ rw e refl ]

-- In front of the loop.
my_probe-loop :
    (children : List Child) (h : Held)
    → 2 ≤ length children
    → let room : ℕ = length children - 2 in
      my_probe true true children h
      ≡ probe_children room children (with_leds 0 (Part.led_class ∷ hold_from Part.number room 0 h))
unfolding my_probe create_class hold_from
my_probe-loop children h le =
    let some_child : (length children == 0) ≡ false = ground arith in
    rw (some_child, le→ltb (length children) 2 le) refl

-- If no call fails, and the children are two keys and LEDs, with a known trigger for each key, then the
-- probe returns 0; and the removal, whatever the sysfs files and the keys have done before with the flag
-- of the thread sound, returns 0, leaves no thread running, and gives back all that the probe has
-- acquired.
pub my_probe-my_remove :
    (children : List Child) (h : Held) (p : Priv)
    → all_good children ≡ true
    → led_count children + 2 ≡ length children
    → Sound p
    → (b : Board) × (q : Priv) × (b' : Board) × (my_probe true true children h
        ≡ some (Ret.value 0, b))
      × (b.num_leds ≡ led_count children)
      × (my_remove p b ≡ some (Ret.value 0, q, b'))
      × (q.task ≡ none)
      × (b'.held ≡ h)
unfolding my_remove probe_children
my_probe-my_remove children h p g e i =
    let n : ℕ = led_count children in
    let room : length children - 2 ≡ n = omega arith in
    let taken : Held = Part.led_class ∷ hold_from Part.number n 0 h in
    let (q, stops, idle) = stop_task-none i in
    (
      with_leds n taken,
      switch_off q,
      record { held = h; num_leds = n },
      my_probe-loop children h (omega arith)
          ∙ ap
              (λ m.
                probe_children m children
                  (with_leds 0 (Part.led_class ∷ hold_from Part.number m 0 h)))
              room
          ∙ ap (λ l. probe_children n l (with_leds 0 taken)) (sym (append-nil children))
          ∙ probe_children-good n children [] 0 taken g (omega arith)
          ∙ ap (λ m. some (Ret.value 0, with_leds m taken)) (omega arith),
      refl,
      simp (stops, unregister-with_leds n h) refl,
      switch_off-task q ∙ idle,
      refl,
    )

-- A trigger of the first key that the driver does not know, behind children of which no call fails, makes
-- the probe return -EINVAL with everything held: the device numbers, the class, the devices of all LEDs
-- so far, and the reference on the child.
my_probe-leaks :
    (children : List Child) (c : Child) (rest : List Child) (h : Held)
    → all_good children ≡ true
    → led_count children + 2 ≤ length (children ++ c ∷ rest)
    → c.label ≡ some Label.mikrobus_key_1
    → c.trigger ≡ some Trigger.other
    → let room : ℕ = length (children ++ c ∷ rest) - 2 in
      let n : ℕ = led_count children in
      my_probe true true (children ++ c ∷ rest) h
      ≡ some (
        Ret.error Errno.einval,
        record {
          held =
              Part.child
              ∷ hold_from Part.device n 0 (Part.led_class ∷ hold_from Part.number room 0 h);
          num_leds = n;
        },
      )
unfolding probe_children probe_child add_child add_key
my_probe-leaks children c rest h g le label trigger =
    let n : ℕ = led_count children in
    let room : ℕ = length (children ++ c ∷ rest) - 2 in
    let taken : Held = Part.led_class ∷ hold_from Part.number room 0 h in
    let same : n + 0 ≡ n = omega arith in
    my_probe-loop (children ++ c ∷ rest) h (omega arith)
    ∙ probe_children-good room children (c ∷ rest) 0 taken g (omega arith)
    ∙ ap (λ m. probe_children room (c ∷ rest) (with_leds m taken)) same
    ∙ simp (label, trigger) refl
