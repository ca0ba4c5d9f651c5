-- ===== src/Snull/Load.antt =====
-- snull/snull.c: the two device pointers while the module is loaded and unloaded.
pub mod Anuz
pub mod V2020
use raspberrypimodules.Prelude.{
  ◌≡◌, refl, Bool, true, false, ◌&&◌, ◌||◌, not, Option, none, some, if◌then◌else◌,
}
use raspberrypimodules.Prelude.Errno.{Ret, Errno}
use raspberrypimodules.Prelude.Options.{◌>>=◌}

-- What an element of `snull_devs` points to.
pub data Slot : Type 0 where
  null allocated registered freed : Slot

-- `alloc_netdev_mqs` and `register_netdev` of one device, for their outcomes.
abbrev pub alloc_netdev : Bool → Slot
alloc_netdev true = Slot.allocated
alloc_netdev false = Slot.null

abbrev pub register_netdev : Bool → Slot
register_netdev true = Slot.registered
register_netdev false = Slot.allocated

-- The body of the loop of `snull_cleanup`: `free_netdev` leaves the pointer, and none is a use of a
-- device that was freed.
unfoldable pub cleanup_one : Slot → Option Slot
cleanup_one Slot.null = some Slot.null
cleanup_one Slot.allocated = some Slot.freed
cleanup_one Slot.registered = some Slot.freed
cleanup_one Slot.freed = none

-- `snull_cleanup`
unfoldable pub snull_cleanup : Slot × Slot → Option (Slot × Slot)
snull_cleanup devs = do
  first ← cleanup_one devs.0
  second ← cleanup_one devs.1
  some (first, second)

-- What follows the label `out`: the cleanup for an error, and the cleanup.
unfoldable pub load_end : Ret → Bool → Slot × Slot → Option (Ret × Slot × Slot)
load_end ret failed devs = do
  cleaned ← if failed then snull_cleanup devs else some devs
  again ← snull_cleanup cleaned
  some (ret, again.0, again.1)

-- `snull_init_module`, for the outcomes of the allocations and the registrations.
unfoldable pub snull_init_module :
    (alloc0 alloc1 registers0 registers1 : Bool) → Option (Ret × Slot × Slot)
snull_init_module alloc0 alloc1 registers0 registers1 =
    if not alloc0 || not alloc1
    then load_end (Ret.error Errno.enomem) true (alloc_netdev alloc0, alloc_netdev alloc1)
    else (if registers0 || registers1
        then load_end (Ret.value 0) false (register_netdev registers0, register_netdev registers1)
        else load_end (Ret.error Errno.enodev) true (Slot.allocated, Slot.allocated))

-- A load in which both devices are allocated and one of them registers returns 0 and has freed both.
-- One in which neither is allocated returns -ENOMEM. Every other one frees a device twice.
snull_init_module_lem :
    (alloc0 alloc1 registers0 registers1 : Bool)
    → snull_init_module alloc0 alloc1 registers0 registers1 ≡ (
        if alloc0 && alloc1 && (registers0 || registers1)
        then some (Ret.value 0, Slot.freed, Slot.freed)
        else if alloc0 || alloc1
        then none
        else some (Ret.error Errno.enomem, Slot.null, Slot.null))
unfolding snull_init_module load_end snull_cleanup cleanup_one
snull_init_module_lem true true true true = refl
snull_init_module_lem true true true false = refl
snull_init_module_lem true true false true = refl
snull_init_module_lem true true false false = refl
snull_init_module_lem true false r0 r1 = refl
snull_init_module_lem false true r0 r1 = refl
snull_init_module_lem false false r0 r1 = refl

-- The unload after a load that returned 0 uses a device that was freed.
snull_init_module-snull_cleanup :
    (registers0 registers1 : Bool)
    → (registers0 || registers1) ≡ true
    → (snull_init_module true true registers0 registers1 >>= λ r. snull_cleanup (r.1, r.2)) ≡ none
unfolding snull_init_module load_end snull_cleanup cleanup_one
snull_init_module-snull_cleanup true true h = refl
snull_init_module-snull_cleanup true false h = refl
snull_init_module-snull_cleanup false true h = refl
snull_init_module-snull_cleanup false false h = absurd (cc h)
