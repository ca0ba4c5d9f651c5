-- ===== src/CharDevices/CharModule.antt =====
-- char_module/char_module.c: a character device with the fixed number 42.
use raspberrypimodules.Prelude.{◌≡◌, refl, List, ◌∷◌, Option, none, some}
use raspberrypimodules.Prelude.Options.{◌>>=◌}
use raspberrypimodules.Prelude.Ledger.{release}
use raspberrypimodules.Prelude.Errno.{Ret, Errno}
use raspberrypimodules.CharDevices.{Part, part_resource, first_error}

unfoldable pub add_cdev : Option Errno → List Part → Option (Ret × List Part)
add_cdev none h = some (Ret.value 0, Part.cdev ∷ h)
add_cdev (some e) h = do h1 ← release Part.region h; some (Ret.error e, h1)

-- `hello_init`, with the errors of its two calls.
unfoldable pub hello_init : (region add : Option Errno) → List Part → Option (Ret × List Part)
hello_init none add h = add_cdev add (Part.region ∷ h)
hello_init (some e) add h = some (Ret.error e, h)

-- `hello_exit`: the number is given back before the device.
unfoldable pub hello_exit : List Part → Option (List Part)
hello_exit h = do h1 ← release Part.region h; release Part.cdev h1

abbrev pub Loaded : (region add : Option Errno) → List Part → Option Errno → Type 0
Loaded region add h none =
    (held : List Part) × (hello_init region add h ≡ some (Ret.value 0, held))
    × (hello_exit held ≡ some h)
Loaded region add h (some e) = hello_init region add h ≡ some (Ret.error e, h)

-- Where a call fails, `hello_init` returns the first error and holds nothing more; else it returns 0, and
-- `hello_exit` gives back all that it holds.
hello_init-Loaded :
    (region add : Option Errno) (h : List Part) → Loaded region add h (first_error region add)
unfolding hello_init add_cdev hello_exit
hello_init-Loaded (some e) add h = refl
hello_init-Loaded none (some e) h = refl
hello_init-Loaded none none h = (Part.cdev ∷ Part.region ∷ h, refl, refl)
