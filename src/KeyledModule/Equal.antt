-- ===== src/KeyledModule/Equal.antt =====
-- keyled/keyled_module.c behaves as keyled/keyled_rpi_class.c, but for the named differences.
use raspberrypimodules.Prelude.{
  ℕ, suc, ◌-◌, ◌%◌, ◌||◌, ◌<◌, ◌⊎◌, ◌≡◌, ◌≢◌, refl, ap, ◌∙◌, inl, inr, Bool, true, false, List, [],
  ◌∷◌, Option, none, some, ◌==◌, ltb, length, arith,
}
use raspberrypimodules.Prelude.Options.{◌>>=◌}
use raspberrypimodules.Prelude.Words.{int_mod, int_lt}
use raspberrypimodules.Prelude.Errno.{Ret, Errno}
use raspberrypimodules.Keyled.Device.{Priv}
use raspberrypimodules.Keyled.Device
use raspberrypimodules.Keyled.Probe
use raspberrypimodules.Keyled.Probe.{
  Part, Held, Label, Trigger, Child, Board, Round, add_key, get_key_irq, request_key, next,
  hold_from,
}
use raspberrypimodules.KeyledModule.{
  set_period_store, add_child, probe_child, probe_children, create_class, my_probe,
}

same_range : (n : ℕ) → n < int_mod → (int_lt n 10 || int_lt 10000 n) ≡ (ltb n 10 || ltb 10000 n)
same_range n h = ground arith

-- The two drivers take the same periods: a number that is negative as an `int` is too large as an `unsigned`.
set_period_store-set_period_store :
    (scanned : Option ℕ) (count : ℕ) (s : Priv)
    → set_period_store scanned count s ≡ Device.set_period_store scanned count s
unfolding set_period_store Device.set_period_store
set_period_store-set_period_store none count s = refl
set_period_store-set_period_store (some n) count s =
    rw (same_range (n % int_mod) (omega arith)) refl

-- A second key whose interrupt can be requested.
abbrev pub Requested : Child → Option Label → Type 0
Requested c (some Label.key_2) = c.request ≡ none
Requested c label = Unit {0}

abbrev pub AllRequested : List Child → Type 0
AllRequested [] = Unit {0}
AllRequested (c ∷ rest) = Requested c c.label × AllRequested rest

key-same :
    (f g : Errno → Board → Round) (c : Child) (t : Option Trigger) (b : Board)
    → c.request ≡ none
    → add_key f c t b ≡ add_key g c t b
unfolding add_key get_key_irq request_key
key-same f g c none b h = refl
key-same f g c (some Trigger.other) b h = refl
key-same f g c (some Trigger.falling) b h = rw h refl
key-same f g c (some Trigger.rising) b h = rw h refl
key-same f g c (some Trigger.both) b h = rw h refl

-- The label that keyled_rpi_class.c treats as this driver does the given one: the keys' labels change places.
abbrev pub counterpart : Label → Label
counterpart Label.led = Label.led
counterpart Label.key_1 = Label.mikrobus_key_1
counterpart Label.key_2 = Label.mikrobus_key_2
counterpart Label.mikrobus_key_1 = Label.key_1
counterpart Label.mikrobus_key_2 = Label.key_2
counterpart Label.other = Label.other

abbrev pub label_counterpart : Option Label → Option Label
label_counterpart none = none
label_counterpart (some l) = some (counterpart l)

-- A device tree with its labels written for the other driver.
abbrev pub relabelled : List Child → List Child
relabelled [] = []
relabelled (c ∷ rest) = record c { label = label_counterpart c.label } ∷ relabelled rest

length-relabelled : (children : List Child) → length (relabelled children) ≡ length children
length-relabelled [] = refl
length-relabelled (c ∷ rest) = ap suc (length-relabelled rest)

child-same :
    (room : ℕ) (c : Child) (label other : Option Label) (b : Board)
    → Requested c label
    → add_child room c label b
      ≡ Probe.add_child room (record c { label = other }) (label_counterpart label) b
unfolding add_child Probe.add_child Probe.add_led Probe.led_device_register Probe.use_led add_key
    get_key_irq
child-same room c none other b h = refl
child-same room c (some Label.led) other b h = refl
child-same room c (some Label.key_1) other b h = refl
child-same room c (some Label.key_2) other b h = key-same Probe.stop Probe.error c c.trigger b h
child-same room c (some Label.mikrobus_key_1) other b h = refl
child-same room c (some Label.mikrobus_key_2) other b h = refl
child-same room c (some Label.other) other b h = refl

next-same :
    (f g : Board → Option (Ret × Board))
    → ((b : Board) → f b ≡ g b)
    → (r : Board ⊎ (Ret × Board)) → next f r ≡ next g r
next-same f g h (inl b) = h b
next-same f g h (inr r) = refl

bind-same :
    (m : Round) (f g : Board ⊎ (Ret × Board) → Option (Ret × Board))
    → ((r : Board ⊎ (Ret × Board)) → f r ≡ g r)
    → (m >>= f) ≡ (m >>= g)
bind-same none f g h = refl
bind-same (some r) f g h = h r

children-same :
    (room : ℕ) (children : List Child) (b : Board)
    → AllRequested children
    → probe_children room children b ≡ Probe.probe_children room (relabelled children) b
unfolding probe_children Probe.probe_children probe_child Probe.probe_child
children-same room [] b h = refl
children-same room (c ∷ rest) b (h, hs) =
    let held : Board = record b { held = Part.child ∷ b.held } in
    ap (λ m. m >>= λ r. next (λ b'. probe_children room rest b') r)
      (child-same room c c.label (label_counterpart c.label) held h)
    ∙ bind-same
        (Probe.add_child room (record c { label = label_counterpart c.label })
          (label_counterpart c.label) held)
        _ _ (next-same _ _ (λ b'. children-same room rest b' hs))

-- For a device tree with children, in which the interrupt of every second key can be requested: whatever else fails,
-- the probe does what that of keyled_rpi_class.c does for the same tree with the labels KEY_1 and KEY_2 in the place
-- of MIKROBUS_KEY_1 and MIKROBUS_KEY_2, and the other way round.
pub my_probe-my_probe :
    (allocated created : Bool) (children : List Child) (h : Held)
    → children ≢ []
    → AllRequested children
    → my_probe allocated created children h
      ≡ Probe.my_probe allocated created (relabelled children) h
unfolding my_probe Probe.my_probe create_class Probe.create_class
my_probe-my_probe allocated created [] h some_child r = absurd (some_child refl)
my_probe-my_probe allocated false (c ∷ rest) h some_child r =
    let not_none : (suc (length rest) == 0) ≡ false = ground arith in
    rw (length-relabelled rest, not_none) refl
my_probe-my_probe allocated true (c ∷ rest) h some_child r =
    let not_none : (suc (length rest) == 0) ≡ false = ground arith in
    rw (length-relabelled rest, not_none)
      (rw (children-same (suc (length rest) - 2) (c ∷ rest) _ r) refl)
