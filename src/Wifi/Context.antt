-- ===== src/Wifi/Context.antt =====
-- dummy_wifi/virtualwifi.c: the context while the module is loaded and unloaded.
pub mod Unwind
use raspberrypimodules.Prelude.{
  ℕ, ◌≡◌, refl, Bool, true, false, not, ◌&&◌, List, [], ◌∷◌, ◌++◌, Option, none, some,
  if◌then◌else◌,
}
use raspberrypimodules.Prelude.Options.{◌>>=◌}
use raspberrypimodules.Prelude.Ledger.{Resource, release}
use raspberrypimodules.Prelude.Errno.{Ret}

-- What the module holds: memory of the context, the wiphy, its registration, the network device and
-- its registration.
pub data Part : Type 0 where
  context wiphy wiphy_registration ndev ndev_registration : Part

abbrev same_part : Part → Part → Bool
same_part Part.context Part.context = true
same_part Part.wiphy Part.wiphy = true
same_part Part.wiphy_registration Part.wiphy_registration = true
same_part Part.ndev Part.ndev = true
same_part Part.ndev_registration Part.ndev_registration = true
same_part a b = false

instance abbrev pub part_resource : Resource Part
part_resource = record { same = same_part }

abbrev pub Held : Type 0
Held = List Part

-- The labels of `navifly_create_context`, each of which falls through to the next.
unfoldable pub l_error : Held → Option (Bool × Held)
l_error h = some (false, h)

unfoldable pub l_error_wiphy : Held → Option (Bool × Held)
l_error_wiphy h = do h' ← release Part.context h; l_error h'

unfoldable pub l_error_wiphy_register : Held → Option (Bool × Held)
l_error_wiphy_register h = do h' ← release Part.wiphy h; l_error_wiphy h'

unfoldable pub l_error_alloc_ndev : Held → Option (Bool × Held)
l_error_alloc_ndev h = do h' ← release Part.wiphy_registration h; l_error_wiphy_register h'

unfoldable pub l_error_ndev_register : Held → Option (Bool × Held)
l_error_ndev_register h = do h' ← release Part.ndev h; l_error_alloc_ndev h'

-- Which of the five calls succeed.
pub record Outcomes : Type 0 where
  pub kmalloc : Bool
  pub wiphy_new : Bool
  pub wiphy_register : Bool
  pub alloc_netdev : Bool
  pub register_netdev : Bool

unfoldable pub register_ndev : Outcomes → Held → Option (Bool × Held)
register_ndev o h =
    if not o.register_netdev
    then l_error_ndev_register h
    else some (true, Part.ndev_registration ∷ h)

unfoldable pub make_ndev : Outcomes → Held → Option (Bool × Held)
make_ndev o h = if not o.alloc_netdev then l_error_alloc_ndev h else register_ndev o (Part.ndev ∷ h)

unfoldable pub register_wiphy : Outcomes → Held → Option (Bool × Held)
register_wiphy o h =
    if not o.wiphy_register
    then l_error_wiphy_register h
    else make_ndev o (Part.wiphy_registration ∷ h)

unfoldable pub make_wiphy : Outcomes → Held → Option (Bool × Held)
make_wiphy o h = if not o.wiphy_new then l_error_wiphy h else register_wiphy o (Part.wiphy ∷ h)

-- `navifly_create_context`: whether there is a context, and what is held; none gives back what is not.
unfoldable pub navifly_create_context : Outcomes → Held → Option (Bool × Held)
navifly_create_context o h = if not o.kmalloc then l_error h else make_wiphy o (Part.context ∷ h)

-- `navifly_free` of a context that is there or NULL.
unfoldable pub navifly_free : Bool → Held → Option Held
navifly_free false h = some h
navifly_free true h = do
  h1 ← release Part.ndev_registration h
  h2 ← release Part.ndev h1
  h3 ← release Part.wiphy_registration h2
  h4 ← release Part.wiphy h3
  release Part.context h4

abbrev pub init_result : Bool × Held → ℕ × Bool × Held
init_result (made, h) = ((if made then 0 else 1), made, h)

-- `virtual_wifi_init`: its result, the pointer `g_ctx`, and what is held.
unfoldable pub virtual_wifi_init : Outcomes → Held → Option (ℕ × Bool × Held)
virtual_wifi_init o h = do made ← navifly_create_context o h; some (init_result made)

-- `virtual_wifi_exit`: `cancel_work_sync` of a work item in the context that `g_ctx` points to; none
-- where it is NULL.
unfoldable pub virtual_wifi_exit : Bool → Held → Option Held
virtual_wifi_exit g_ctx h = if g_ctx then navifly_free g_ctx h else none

abbrev pub all_succeed : Outcomes → Bool
all_succeed o = o.kmalloc && o.wiphy_new && o.wiphy_register && o.alloc_netdev && o.register_netdev
