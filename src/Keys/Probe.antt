-- ===== src/Keys/Probe.antt =====
-- wait_int_dev/sleep_module.c: `my_probe` and `my_remove`, by the character device that they hold. The memory, the
-- pin and the interrupt are given back by the kernel.
use raspberrypimodules.Prelude.{◌≡◌, refl, Bool, true, false, List, Option, none, some}
use raspberrypimodules.Prelude.Ledger.{release}
use raspberrypimodules.Prelude.Errno.{Ret, Errno}
use raspberrypimodules.CharDevices.{Part, part_resource, first_error}
use raspberrypimodules.CharDevices.Platform.{register, Ended}

-- `my_probe`: whether the memory is allocated, and the errors of the four calls behind it.
unfoldable pub my_probe :
    (allocated : Bool) (gpio irq request misc : Option Errno) → List Part → Ret × List Part
my_probe false gpio irq request misc h = (Ret.error Errno.enomem, h)
my_probe true (some e) irq request misc h = (Ret.error e, h)
my_probe true none (some e) request misc h = (Ret.error e, h)
my_probe true none none (some e) misc h = (Ret.error e, h)
my_probe true none none none misc h = register Part.misc misc h

unfoldable pub my_remove : List Part → Option (List Part)
my_remove h = release Part.misc h

-- The probe ends with -ENOMEM without memory, and else with the error of the first call that fails: in both cases
-- nothing more is held. Where none fails it returns 0, and the removal gives back what it holds.
my_probe-Ended :
    (gpio irq request misc : Option Errno) (h : List Part)
    → (my_probe false gpio irq request misc h ≡ (Ret.error Errno.enomem, h))
      × Ended
          (first_error gpio (first_error irq (first_error request misc)))
          my_remove
          (my_probe true gpio irq request misc h)
          h
unfolding my_probe my_remove
my_probe-Ended (some e) irq request misc h = (refl, refl)
my_probe-Ended none (some e) request misc h = (refl, refl)
my_probe-Ended none none (some e) misc h = (refl, refl)
my_probe-Ended none none none (some e) h = (refl, refl)
my_probe-Ended none none none none h = (refl, (refl, refl))
