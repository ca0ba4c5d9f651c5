-- ===== src/Keyled/Probe.antt =====
-- keyled/keyled_rpi_class.c: `my_probe` and `my_remove`, for every outcome of their calls, but that the
-- device numbers are taken to be got.
use raspberrypimodules.Prelude.{
  ℕ, zero, suc, ◌-◌, ◌⊎◌, inl, inr, Bool, true, false, not, List, [], ◌∷◌, Option, none, some, ◌==◌,
  ltb, if◌then◌else◌, length,
}
use raspberrypimodules.Prelude.Options.{◌>>=◌}
use raspberrypimodules.Prelude.Ledger.{Resource, release}
use raspberrypimodules.Prelude.Errno.{Ret, Errno}
use raspberrypimodules.Keyled.Device.{Priv, set_all, stop_task}

-- What the driver itself gives back: each device number, the class, each LED's device by its minor
-- number, and the reference on the child node of the loop.
pub data Part : Type 0 where
  number device : ℕ → Part
  led_class child : Part

abbrev pub same_part : Part → Part → Bool
same_part (Part.number i) (Part.number j) = i == j
same_part (Part.device i) (Part.device j) = i == j
same_part Part.led_class Part.led_class = true
same_part Part.child Part.child = true
same_part a b = false

instance abbrev pub part_resource : Resource Part
part_resource = record { same = same_part }

abbrev pub Held : Type 0
Held = List Part

-- The parts from `i` on: `alloc_chrdev_region`.
unfoldable pub hold_from : (ℕ → Part) → (left i : ℕ) → Held → Held
hold_from f zero i h = h
hold_from f (suc left) i h = hold_from f left (suc i) (f i ∷ h)

-- The loop of `device_destroy`, and `unregister_chrdev_region`.
unfoldable pub release_from : (ℕ → Part) → (left i : ℕ) → Held → Option Held
release_from f zero i h = some h
release_from f (suc left) i h = do h' ← release (f i) h; release_from f left (suc i) h'

-- The labels and triggers that this driver and keyled_module.c compare with, and any other string.
pub data Label : Type 0 where
  led mikrobus_key_1 mikrobus_key_2 key_1 key_2 other : Label

pub data Trigger : Type 0 where
  falling rising both other : Trigger

-- A child node: its strings, and what the calls for it return. `created` is about the two calls of
-- `led_device_register`, its allocation and `device_create`; the others have their error, if any.
pub record Child : Type 0 where
  pub label : Option Label
  pub trigger : Option Trigger
  pub allocated : Bool
  pub created : Bool
  pub gpio : Option Errno
  pub irq : Option Errno
  pub request : Option Errno

pub record Board : Type 0 where
  pub held : Held
  pub num_leds : ℕ

-- How a round of the loop ends: with the board of the next one, or with the result of the probe; none
-- is a crash.
abbrev pub Round : Type 0
Round = Option (Board ⊎ (Ret × Board))

abbrev pub stop : Errno → Board → Round
stop e b = some (inr (Ret.error e, b))

-- The LEDs' devices, the class and the device numbers are given back, as behind the label `error` and in
-- `my_remove`.
unfoldable pub unregister : Board → Option Board
unregister b = do
  h1 ← release_from Part.device b.num_leds 0 b.held
  h2 ← release Part.led_class h1
  h3 ← release_from Part.number b.num_leds 0 h2
  some (record b { held = h3 })

-- The label `error`.
unfoldable pub error : Errno → Board → Round
error e b = do b' ← unregister b; stop e b'

-- The end of a round puts the reference on the child.
unfoldable pub next_child : Board → Round
next_child b = do h ← release Part.child b.held; some (inl (record b { held = h }))

abbrev pub create_device : ℕ → Held → Bool → Option (Option Errno × Held)
create_device count h true = some (none, Part.device count ∷ h)
create_device count h false = none

-- `led_device_register`: its error, if it has one; it reports a failure of `device_create` through the
-- error pointer, which crashes.
unfoldable pub led_device_register : Child → (count : ℕ) → Held → Option (Option Errno × Held)
led_device_register c count h =
    if c.allocated then create_device count h c.created else some (some Errno.enomem, h)

-- The pointer goes into `priv->leds`, which has `room` entries.
unfoldable pub store_led : (room : ℕ) → Board → Round
store_led room b =
    if ltb b.num_leds room then next_child (record b { num_leds = suc b.num_leds }) else none

-- `devm_fwnode_get_gpiod_from_child`
unfoldable pub get_gpiod : (room : ℕ) → Option Errno → Board → Round
get_gpiod room none b = store_led room b
get_gpiod room (some e) b = do h ← release Part.child b.held; error e (record b { held = h })

-- The test of `new_led` against NULL does not hold for an error pointer, through which `ledd` is set.
unfoldable pub use_led : (room : ℕ) → Child → Board → Option Errno × Held → Round
use_led room c b (none, h) = get_gpiod room c.gpio (record b { held = h })
use_led room c b (some e, h) = none

unfoldable pub add_led : (room : ℕ) → Child → Board → Round
add_led room c b = do r ← led_device_register c b.num_leds b.held; use_led room c b r

-- The calls for a key: `failed` is what follows an error of `devm_request_irq`.
unfoldable pub request_key : (failed : Errno → Board → Round) → Option Errno → Board → Round
request_key failed none b = next_child b
request_key failed (some e) b = failed e b

unfoldable pub get_key_irq : (failed : Errno → Board → Round) → Child → Option Errno → Board → Round
get_key_irq failed c none b = request_key failed c.request b
get_key_irq failed c (some e) b = stop e b

unfoldable pub add_key : (failed : Errno → Board → Round) → Child → Option Trigger → Board → Round
add_key failed c none b = none
add_key failed c (some Trigger.other) b = stop Errno.einval b
add_key failed c (some Trigger.falling) b = get_key_irq failed c c.irq b
add_key failed c (some Trigger.rising) b = get_key_irq failed c c.irq b
add_key failed c (some Trigger.both) b = get_key_irq failed c c.irq b

-- A child without a label leaves `label_name` unset.
unfoldable pub add_child : (room : ℕ) → Child → Option Label → Board → Round
add_child room c none b = none
add_child room c (some Label.led) b = add_led room c b
add_child room c (some Label.mikrobus_key_1) b = add_key stop c c.trigger b
add_child room c (some Label.mikrobus_key_2) b = add_key error c c.trigger b
add_child room c (some Label.key_1) b = error Errno.einval b
add_child room c (some Label.key_2) b = error Errno.einval b
add_child room c (some Label.other) b = error Errno.einval b

unfoldable pub probe_child : (room : ℕ) → Child → Board → Round
probe_child room c b = add_child room c c.label (record b { held = Part.child ∷ b.held })

abbrev pub next : (Board → Option (Ret × Board)) → Board ⊎ (Ret × Board) → Option (Ret × Board)
next f (inl b) = f b
next f (inr r) = some r

-- The loop over the child nodes.
unfoldable pub probe_children : (room : ℕ) → List Child → Board → Option (Ret × Board)
probe_children room [] b = some (Ret.value 0, b)
probe_children room (c ∷ rest) b = do
  r ← probe_child room c b
  next (λ b'. probe_children room rest b') r

-- `class_create` fails with an error pointer, which the test against NULL lets pass.
unfoldable pub create_class :
    (created : Bool) → (room : ℕ) → List Child → Board → Option (Ret × Board)
create_class true room children b =
    probe_children room children (record b { held = Part.led_class ∷ b.held })
create_class false room children b = none

-- `my_probe`: whether the memory of the driver is allocated, and the class created. With fewer than two
-- children the memory is too small for the fields in front of `leds`.
unfoldable pub my_probe : (allocated created : Bool) → List Child → Held → Option (Ret × Board)
my_probe allocated created children h =
    let count = length children in
    let room = count - 2 in
    if count == 0
    then some (Ret.error Errno.enodev, record { held = h; num_leds = 0 })
    else (if not allocated
        then some (Ret.error Errno.enomem, record { held = h; num_leds = 0 })
        else (if ltb count 2
            then none
            else create_class created room children
                (record { held = hold_from Part.number room 0 h; num_leds = 0 })))

-- `my_remove`: the thread is stopped, and the LEDs are switched off.
abbrev pub switch_off : Priv → Priv
switch_off p = if p.led_flag == 1 then set_all p else p

unfoldable pub my_remove : Priv → Board → Option (Ret × Priv × Board)
my_remove p b = do q ← stop_task p; b' ← unregister b; some (Ret.value 0, switch_off q, b')
