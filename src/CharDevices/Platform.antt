-- ===== src/CharDevices/Platform.antt =====
-- btn_int_dev/btn_module.c, misc_module/misc_module.c, plat_module/plat_module.c and uio_module/uio_module.c: the
-- modules that hold one device. What the kernel gives back by itself is not in the ledger.
use raspberrypimodules.Prelude.{
  ◌≡◌, refl, Bool, true, false, not, List, ◌∷◌, Option, none, some, if◌then◌else◌,
}
use raspberrypimodules.Prelude.Ledger.{release}
use raspberrypimodules.Prelude.Errno.{Ret, Errno}
use raspberrypimodules.CharDevices.{Part, part_resource, first_error}

-- A registration of a device, with its error if it has one.
abbrev pub register : Part → Option Errno → List Part → Ret × List Part
register p none h = (Ret.value 0, p ∷ h)
register p (some e) h = (Ret.error e, h)

-- `hello_init` of misc_module.c, and `my_probe` of plat_module.c; `hello_exit` and `my_remove`.
unfoldable pub register_hello_misc : Option Errno → List Part → Ret × List Part
register_hello_misc e h = register Part.misc e h

unfoldable pub remove_hello_misc : List Part → Option (List Part)
remove_hello_misc h = release Part.misc h

-- `my_probe` of btn_module.c, with the errors of its four calls.
unfoldable pub probe_button : (gpio irq request misc : Option Errno) → List Part → Ret × List Part
probe_button (some e) irq request misc h = (Ret.error e, h)
probe_button none (some e) request misc h = (Ret.error e, h)
probe_button none none (some e) misc h = (Ret.error e, h)
probe_button none none none misc h = register Part.misc misc h

-- `uio_probe` and `uio_remove`: whether there is a memory resource, whether it can be mapped, and the error of the
-- registration.
unfoldable pub uio_probe : (resource mapped : Bool) → Option Errno → List Part → Ret × List Part
uio_probe resource mapped e h =
    if not resource
    then (Ret.error Errno.einval, h)
    else (if not mapped then (Ret.error Errno.enomem, h) else register Part.uio e h)

unfoldable pub uio_remove : List Part → Option (List Part)
uio_remove h = release Part.uio h

-- How a registration ends for the error that it is to have: with that error and nothing more held, or with 0
-- and something that a removal gives back.
abbrev pub Ended :
    Option Errno → (List Part → Option (List Part)) → Ret × List Part → List Part → Type 0
Ended none remove r h = (r.0 ≡ Ret.value 0) × (remove r.1 ≡ some h)
Ended (some e) remove r h = r ≡ (Ret.error e, h)

-- The probe of the button ends with the error of the first of its calls that fails.
probe_button-Ended :
    (gpio irq request misc : Option Errno) (h : List Part)
    → Ended
        (first_error gpio (first_error irq (first_error request misc)))
        remove_hello_misc
        (probe_button gpio irq request misc h)
        h
unfolding probe_button remove_hello_misc
probe_button-Ended (some e) irq request misc h = refl
probe_button-Ended none (some e) request misc h = refl
probe_button-Ended none none (some e) misc h = refl
probe_button-Ended none none none (some e) h = refl
probe_button-Ended none none none none h = (refl, refl)

-- The UIO driver's probe ends with -EINVAL where there is no resource, with -ENOMEM where it is not mapped, and
-- else with the error of the registration.
uio_probe-Ended :
    (resource mapped : Bool) (e : Option Errno) (h : List Part)
    → Ended
        (first_error
          (if resource then none else some Errno.einval)
          (first_error (if mapped then none else some Errno.enomem) e))
        uio_remove
        (uio_probe resource mapped e h)
        h
unfolding uio_probe uio_remove
uio_probe-Ended true true (some e) h = refl
uio_probe-Ended true true none h = (refl, refl)
uio_probe-Ended true false e h = refl
uio_probe-Ended false mapped e h = refl
