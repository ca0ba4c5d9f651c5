-- ===== src/Snull/Load/V2020.antt =====
-- snull/snull_3dec2020.c: how it loads and unloads its two devices.
use raspberrypimodules.Prelude.{
  ◌≡◌, refl, Bool, true, false, ◌||◌, not, Option, some, if◌then◌else◌,
}
use raspberrypimodules.Prelude.Errno.{Ret, Errno}
use raspberrypimodules.Prelude.Options.{◌>>=◌}
use raspberrypimodules.Snull.Load.{Slot, alloc_netdev, register_netdev, cleanup_one, snull_cleanup}

-- What follows the label `out`.
unfoldable pub load_end_2020 : Ret → Bool → Slot × Slot → Option (Ret × Slot × Slot)
load_end_2020 ret failed devs = do
  cleaned ← if failed then snull_cleanup devs else some devs
  some (ret, cleaned.0, cleaned.1)

-- `snull_init_module`, for the outcomes of the allocations and the registrations.
unfoldable pub snull_init_module_2020 :
    (alloc0 alloc1 registers0 registers1 : Bool) → Option (Ret × Slot × Slot)
snull_init_module_2020 alloc0 alloc1 registers0 registers1 =
    if not alloc0 || not alloc1
    then load_end_2020 (Ret.error Errno.enomem) true (alloc_netdev alloc0, alloc_netdev alloc1)
    else load_end_2020 (if registers0 || registers1 then Ret.value 0 else Ret.error Errno.enodev)
        (not (registers0 || registers1)) (register_netdev registers0, register_netdev registers1)

-- An unload after a load that returned 0 frees both devices, whether one or both were registered.
snull_init_module_2020-snull_cleanup :
    (registers0 registers1 : Bool)
    → (registers0 || registers1) ≡ true
    → (snull_init_module_2020 true true registers0 registers1 >>= λ r. snull_cleanup (r.1, r.2))
      ≡ some (Slot.freed, Slot.freed)
unfolding snull_init_module_2020 load_end_2020 snull_cleanup cleanup_one
snull_init_module_2020-snull_cleanup true true h = refl
snull_init_module_2020-snull_cleanup true false h = refl
snull_init_module_2020-snull_cleanup false true h = refl
snull_init_module_2020-snull_cleanup false false h = absurd (cc h)
