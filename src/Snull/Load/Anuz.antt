-- ===== src/Snull/Load/Anuz.antt =====
-- snull/snull_anuz.c: how the version that the Makefile builds loads and unloads its two devices.
use raspberrypimodules.Prelude.{
  ◌≡◌, refl, Bool, true, false, ◌&&◌, ◌||◌, not, Option, some, if◌then◌else◌,
}
use raspberrypimodules.Prelude.Errno.{Ret, Errno}
use raspberrypimodules.Prelude.Options.{◌>>=◌}
use raspberrypimodules.Snull.Load.{Slot, alloc_netdev, cleanup_one, snull_cleanup}

-- What follows the label `out`.
unfoldable pub fail : Errno → Slot × Slot → Option (Ret × Slot × Slot)
fail e devs = do cleaned ← snull_cleanup devs; some (Ret.error e, cleaned.0, cleaned.1)

-- The loop over the devices, which the first registration that fails leaves.
unfoldable pub register_both : (registers0 registers1 : Bool) → Option (Ret × Slot × Slot)
register_both registers0 registers1 =
    if not registers0
    then fail Errno.enodev (Slot.allocated, Slot.allocated)
    else (if not registers1
        then fail Errno.enodev (Slot.registered, Slot.allocated)
        else some (Ret.value 0, Slot.registered, Slot.registered))

-- `snull_init`, for the outcomes of the allocations and the registrations.
unfoldable pub snull_init :
    (alloc0 alloc1 registers0 registers1 : Bool) → Option (Ret × Slot × Slot)
snull_init alloc0 alloc1 registers0 registers1 =
    if not alloc0 || not alloc1
    then fail Errno.enomem (alloc_netdev alloc0, alloc_netdev alloc1)
    else register_both registers0 registers1

-- What is left of a device that could be allocated, or not, after the cleanup.
abbrev pub gone : Bool → Slot
gone true = Slot.freed
gone false = Slot.null

-- A load never uses a freed device. Where all succeeds it returns 0 with both devices registered, which an
-- unload then frees; else it returns -ENODEV or, where an allocation fails, -ENOMEM, and every device that could be
-- allocated is freed.
pub snull_init-snull_cleanup :
    (alloc0 alloc1 registers0 registers1 : Bool)
    → (snull_init alloc0 alloc1 registers0 registers1 ≡ (
        if alloc0 && alloc1
        then (if registers0 && registers1
            then some (Ret.value 0, Slot.registered, Slot.registered)
            else some (Ret.error Errno.enodev, Slot.freed, Slot.freed))
        else some (Ret.error Errno.enomem, gone alloc0, gone alloc1)))
      × ((snull_init true true true true >>= λ r. snull_cleanup (r.1, r.2))
          ≡ some (Slot.freed, Slot.freed))
unfolding snull_init register_both fail snull_cleanup cleanup_one
snull_init-snull_cleanup true true true true = (refl, refl)
snull_init-snull_cleanup true true true false = (refl, refl)
snull_init-snull_cleanup true true false r = (refl, refl)
snull_init-snull_cleanup true false r0 r1 = (refl, refl)
snull_init-snull_cleanup false true r0 r1 = (refl, refl)
snull_init-snull_cleanup false false r0 r1 = (refl, refl)
