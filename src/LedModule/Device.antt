-- ===== src/LedModule/Device.antt =====
-- led_module/led_module.c: the write, the read and the probe of one LED's device.
use raspberrypimodules.Prelude.{
  ℕ, zero, suc, ◌+◌, ◌-◌, ◌^◌, Bool, true, false, ◌&&◌, List, [], ◌∷◌, Option, none, some, ◌==◌,
  ltb, if◌then◌else◌, length, take, set, memcpy,
}
use raspberrypimodules.Prelude.Errno.{Ret, Errno}

-- What the driver writes to the pins' registers.
pub data Store : Type 0 where
  gpset0 gpclr0 : ℕ → Store

-- `struct led_dev` without the device and the name: its mask, the eight bytes of `led_value`, and the
-- stores so far, the latest first.
pub record LedDev : Type 0 where
  pub led_mask : ℕ
  pub led_value : List ℕ
  pub stores : List Store

-- `!strncmp(s, prefix, strlen(prefix))` for a prefix without NUL.
abbrev pub starts_with : List ℕ → List ℕ → Bool
starts_with s [] = true
starts_with [] (d ∷ prefix) = false
starts_with (c ∷ s) (d ∷ prefix) = let rest = starts_with s prefix in (c == d) && rest

-- "on", "off" and the line feed
abbrev pub on : List ℕ
on = 111 ∷ 110 ∷ []

abbrev pub off : List ℕ
off = 111 ∷ 102 ∷ 102 ∷ []

abbrev pub line_feed : ℕ
line_feed = 10

abbrev pub store : Store → LedDev → LedDev
store s dev = record dev { stores = s ∷ dev.stores }

-- The comparisons of `led_write`.
unfoldable pub switch_led : (count : ℕ) → LedDev → Ret × LedDev
switch_led count dev =
    if starts_with dev.led_value on
    then (Ret.value count, store (Store.gpset0 dev.led_mask) dev)
    else (if starts_with dev.led_value off
        then (Ret.value count, store (Store.gpclr0 dev.led_mask) dev)
        else (Ret.error Errno.einval, dev))

-- `led_write` behind the copy of `count` bytes.
unfoldable pub use_value : (failed : Bool) → (count : ℕ) → LedDev → Ret × LedDev
use_value failed count dev =
    if failed
    then (Ret.error Errno.efault, dev)
    else switch_led count (record dev { led_value = set dev.led_value (count - 1) 0 })

-- `led_write`: `copy_from_user` leaves `buff` in the first bytes of `led_value`, and may fail. A write of
-- more than eight bytes, or of none, stores outside of the array.
unfoldable pub led_write : (failed : Bool) → (buff : List ℕ) → LedDev → Option (Ret × LedDev)
led_write failed buff dev =
    let count = length buff in
    if ltb 8 count
    then none
    else (if count == 0
        then none
        else some
            (use_value failed count (record dev { led_value = memcpy dev.led_value buff count })))

abbrev pub plus_one : Option ℕ → Option ℕ
plus_one none = none
plus_one (some n) = some (suc n)

-- `strlen` of an array; none where it has no NUL.
abbrev pub strlen : List ℕ → Option ℕ
strlen [] = none
strlen (zero ∷ s) = some 0
strlen (suc c ∷ s) = plus_one (strlen s)

-- The bytes that are copied to the user, with the result and the position.
pub record Answer : Type 0 where
  pub ret : Ret
  pub copied : List ℕ
  pub pos : ℕ

-- `led_read` behind `strlen`.
unfoldable pub show_value : (failed : Bool) → Option ℕ → LedDev → Option (Answer × LedDev)
show_value failed none dev = none
show_value failed (some len) dev =
    let value = set dev.led_value len line_feed in
    some (
      (if failed
          then record { ret = Ret.error Errno.efault; copied = []; pos = 0 }
          else record { ret = Ret.value 8; copied = take (len + 1) value; pos = 1 }),
      record dev { led_value = value },
    )

-- `led_read` at a position of the file; none reads past the array.
unfoldable pub led_read : (failed : Bool) → (pos : ℕ) → LedDev → Option (Answer × LedDev)
led_read failed pos dev =
    if pos == 0
    then show_value failed (strlen dev.led_value) dev
    else some (record { ret = Ret.value 0; copied = []; pos = pos }, dev)

-- "ledred", "ledgreen" and "ledblue"
abbrev pub ledred : List ℕ
ledred = 108 ∷ 101 ∷ 100 ∷ 114 ∷ 101 ∷ 100 ∷ []

abbrev pub ledgreen : List ℕ
ledgreen = 108 ∷ 101 ∷ 100 ∷ 103 ∷ 114 ∷ 101 ∷ 101 ∷ 110 ∷ []

abbrev pub ledblue : List ℕ
ledblue = 108 ∷ 101 ∷ 100 ∷ 98 ∷ 108 ∷ 117 ∷ 101 ∷ []

-- The mask of a label.
unfoldable pub mask_of : List ℕ → Option ℕ
mask_of label =
    if starts_with label ledred
    then some (2 ^ 27)
    else (if starts_with label ledgreen
        then some (2 ^ 22)
        else (if starts_with label ledblue then some (2 ^ 26) else none))

abbrev pub initial_value : List ℕ
initial_value = 111 ∷ 102 ∷ 102 ∷ 10 ∷ 0 ∷ 0 ∷ 0 ∷ 0 ∷ []

-- `misc_register`, with its error if it has one; the value is "off" with its line feed.
unfoldable pub register_led : Option Errno → Option ℕ → Ret × Option LedDev
register_led registered none = (Ret.error Errno.einval, none)
register_led none (some mask) =
    (Ret.value 0, some (record { led_mask = mask; led_value = initial_value; stores = [] }))
register_led (some e) (some mask) = (Ret.error e, none)

-- `led_probe` of a node with a label.
unfoldable pub led_probe : (registered : Option Errno) → (label : List ℕ) → Ret × Option LedDev
led_probe registered label = register_led registered (mask_of label)
