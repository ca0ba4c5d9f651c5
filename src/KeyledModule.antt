-- ===== src/KeyledModule.antt =====
-- keyled/keyled_module.c, where it differs from keyled/keyled_rpi_class.c: the period is read as an `unsigned`, the
-- labels of the keys are other strings, a key's request that fails returns at once, and a device tree with no child
-- is -EINVAL.
pub mod Equal
mod Tests
use raspberrypimodules.Prelude.{
  ℕ, ◌-◌, ◌%◌, ◌||◌, inl, inr, Bool, true, false, not, List, [], ◌∷◌, Option, none, some, ◌==◌, ltb,
  if◌then◌else◌, length,
}
use raspberrypimodules.Prelude.Options.{◌>>=◌}
use raspberrypimodules.Prelude.Words.{int_mod}
use raspberrypimodules.Prelude.Errno.{Ret, Errno}
use raspberrypimodules.Keyled.Device.{Priv}
use raspberrypimodules.Keyled.Probe.{
  Part, Held, Label, Child, Board, Round, stop, error, add_led, add_key, next, hold_from,
}

-- `set_period_store`; `scanned` is the number that `sscanf` stores as an `unsigned`, if it stores one.
unfoldable pub set_period_store : (scanned : Option ℕ) → (count : ℕ) → Priv → Ret × Priv
set_period_store none count s = (Ret.error Errno.einval, s)
set_period_store (some n) count s =
    let period = n % int_mod in
    if ltb period 10 || ltb 10000 period
    then (Ret.error Errno.einval, s)
    else (Ret.value count, record s { period = period })

-- The comparisons of the label, with the calls for an LED and a key as in keyled_rpi_class.c; the labels of the keys
-- are KEY_1 and KEY_2 here.
unfoldable pub add_child : (room : ℕ) → Child → Option Label → Board → Round
add_child room c none b = none
add_child room c (some Label.led) b = add_led room c b
add_child room c (some Label.key_1) b = add_key stop c c.trigger b
add_child room c (some Label.key_2) b = add_key stop c c.trigger b
add_child room c (some Label.mikrobus_key_1) b = error Errno.einval b
add_child room c (some Label.mikrobus_key_2) b = error Errno.einval b
add_child room c (some Label.other) b = error Errno.einval b

unfoldable pub probe_child : (room : ℕ) → Child → Board → Round
probe_child room c b = add_child room c c.label (record b { held = Part.child ∷ b.held })

-- The loop over the child nodes.
unfoldable pub probe_children : (room : ℕ) → List Child → Board → Option (Ret × Board)
probe_children room [] b = some (Ret.value 0, b)
probe_children room (c ∷ rest) b = do
  r ← probe_child room c b
  next (λ b'. probe_children room rest b') r

unfoldable pub create_class :
    (created : Bool) → (room : ℕ) → List Child → Board → Option (Ret × Board)
create_class true room children b =
    probe_children room children (record b { held = Part.led_class ∷ b.held })
create_class false room children b = none

-- `my_probe`, as in keyled_rpi_class.c but for the error of a device tree with no child.
unfoldable pub my_probe : (allocated created : Bool) → List Child → Held → Option (Ret × Board)
my_probe allocated created children h =
    let count = length children in
    let room = count - 2 in
    if count == 0
    then some (Ret.error Errno.einval, record { held = h; num_leds = 0 })
    else (if not allocated
        then some (Ret.error Errno.enomem, record { held = h; num_leds = 0 })
        else (if ltb count 2
            then none
            else create_class created room children
                (record { held = hold_from Part.number room 0 h; num_leds = 0 })))
