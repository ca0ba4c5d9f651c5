-- ===== src/Lcd/Probe.antt =====
-- i2c_class/i2c_class.c: `ltc3206_probe` and `ltc3206_remove`, for every outcome of their calls.
pub mod Unwind
pub mod Leaks
use raspberrypimodules.Prelude.{
  ℕ, zero, suc, ◌⊎◌, inl, inr, Bool, true, false, List, [], ◌∷◌, Option, none, some, if◌then◌else◌,
  is_nil,
}
use raspberrypimodules.Prelude.Options.{◌>>=◌}
use raspberrypimodules.Prelude.Ledger.{Resource, release}
use raspberrypimodules.Prelude.Errno.{Ret, Errno}
use raspberrypimodules.Lcd.Device.{Signal, Name}

-- What the probe itself gives back: its group of sysfs files, and the reference on the child node of
-- the loop. The kernel gives back the rest.
pub data Part : Type 0 where
  group child : Part

abbrev same_part : Part → Part → Bool
same_part Part.group Part.group = true
same_part Part.child Part.child = true
same_part a b = false

instance abbrev pub part_resource : Resource Part
part_resource = record { same = same_part }

abbrev pub Held : Type 0
Held = List Part

-- A child node: its memory can be allocated, it has a label, and the error of
-- `devm_led_classdev_register`, if it has one.
pub record Child : Type 0 where
  pub allocated : Bool
  pub label : Option Name
  pub registered : Option Errno

-- The variable `ret`, what is held, the LEDs that are registered, the count of them, and the signals.
pub record Board : Type 0 where
  pub ret : Option Errno
  pub held : Held
  pub leds : List Name
  pub num_leds : ℕ
  pub signals : List Signal

-- The label `err`.
unfoldable pub err : Errno → Board → Option (Ret × Board)
err e b = do
  h1 ← release Part.child b.held
  h2 ← release Part.group h1
  some (Ret.error e, record b { held = h2 })

-- How a round of the loop ends: with the board of the next one, or with the result of the probe.
abbrev pub Round : Type 0
Round = Option (Board ⊎ (Ret × Board))

abbrev pub stop : Ret × Board → Round
stop r = some (inr r)

abbrev pub count_led : Board → Held → Round
count_led b h = some (inl (record b { held = h; num_leds = suc b.num_leds }))

-- `if (ret) goto err;`, and the end of a round, which puts the reference.
unfoldable pub after_register : Option Errno → Board → Round
after_register none b = do h ← release Part.child b.held; count_led b h
after_register (some e) b = do r ← err e b; stop r

abbrev pub register_led : Name → Option Errno → Board → Board
register_led x none b = record b { leds = x ∷ b.leds }
register_led x (some e) b = b

-- The comparisons of the label; none where it is NULL. Only for main is `ret` the result of the
-- registration.
unfoldable pub add_led : Option Name → Option Errno → Board → Round
add_led none r b = none
add_led (some Name.main) r b = after_register r (record (register_led Name.main r b) { ret = r })
add_led (some Name.sub) r b = after_register b.ret (register_led Name.sub r b)
add_led (some Name.red) r b = after_register b.ret (register_led Name.red r b)
add_led (some Name.green) r b = after_register b.ret (register_led Name.green r b)
add_led (some Name.blue) r b = after_register b.ret (register_led Name.blue r b)
add_led (some Name.other) r b = stop (Ret.error Errno.einval, b)

abbrev pub get_child : Board → Board
get_child b = record b { held = Part.child ∷ b.held }

unfoldable pub probe_child : Child → Board → Round
probe_child c b =
    if c.allocated
    then add_led c.label c.registered (get_child b)
    else stop (Ret.error Errno.enomem, get_child b)

abbrev pub next : (Board → Option (Ret × Board)) → Board ⊎ (Ret × Board) → Option (Ret × Board)
next f (inl b) = f b
next f (inr r) = some r

-- The loop over the child nodes.
unfoldable pub probe_children : List Child → Board → Option (Ret × Board)
probe_children [] b = some (Ret.value 0, b)
probe_children (c ∷ rest) b = do r ← probe_child c b; next (λ b'. probe_children rest b') r

-- Whether the memory of the driver is allocated, and the errors of `devm_gpiod_get` and
-- `sysfs_create_group`.
pub record Outcomes : Type 0 where
  pub allocated : Bool
  pub gpio : Option Errno
  pub group : Option Errno

unfoldable pub create_group : Option Errno → List Child → Board → Option (Ret × Board)
create_group none children b = probe_children children (record b { held = Part.group ∷ b.held })
create_group (some e) children b = some (Ret.error e, b)

-- The pin is an output at level 1 then.
unfoldable pub get_gpio : Outcomes → Option Errno → List Child → Board → Option (Ret × Board)
get_gpio o none children b =
    create_group o.group children (record b { signals = Signal.display_cs true ∷ b.signals })
get_gpio o (some e) children b = some (Ret.error e, b)

-- The first message has the nibble of the LED blue set.
abbrev pub first_message : Signal
first_message = Signal.message (record { byte0 = 0; byte1 = 240; byte2 = 0 })

-- `ltc3206_probe`
unfoldable pub ltc3206_probe : Outcomes → List Child → Held → Option (Ret × Board)
ltc3206_probe o children h =
    let b : Board = record {
      ret = none;
      held = h;
      leds = [];
      num_leds = 0;
      signals = first_message ∷ [];
    } in
    if is_nil children
    then some (Ret.error Errno.enodev, b)
    else (if o.allocated then get_gpio o o.gpio children b else some (Ret.error Errno.enomem, b))

-- `ltc3206_remove`
unfoldable pub ltc3206_remove : Board → Option (Ret × Board)
ltc3206_remove b = do h ← release Part.group b.held; some (Ret.value 0, record b { held = h })
