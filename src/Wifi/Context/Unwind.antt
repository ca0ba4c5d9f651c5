-- ===== src/Wifi/Context/Unwind.antt =====
-- dummy_wifi/virtualwifi.c: nothing is leaked or given back twice.
use raspberrypimodules.Prelude.{
  subst, sym, ◌≡◌, refl, Bool, true, false, ◌∷◌, Option, none, some, if◌then◌else◌,
}
use raspberrypimodules.Prelude.Options.{◌>>=◌}
use raspberrypimodules.Wifi.Context.{
  Part, Held, Outcomes, all_succeed, l_error, l_error_wiphy, l_error_wiphy_register,
  l_error_alloc_ndev, l_error_ndev_register, register_ndev, make_ndev, register_wiphy, make_wiphy,
  navifly_create_context, navifly_free, init_result, virtual_wifi_init, virtual_wifi_exit,
}

-- All five parts, behind what was held before.
abbrev pub complete : Held → Held
complete h =
    Part.ndev_registration ∷ Part.ndev ∷ Part.wiphy_registration ∷ Part.wiphy ∷ Part.context ∷ h

-- Whichever call fails, the context gives back exactly what it has acquired and nothing else; if none
-- fails it holds all five parts.
pub navifly_create_context_lem :
    (o : Outcomes) (h : Held)
    → navifly_create_context o h ≡ some (if all_succeed o then (true, complete h) else (false, h))
unfolding navifly_create_context make_wiphy register_wiphy make_ndev register_ndev
    l_error_ndev_register l_error_alloc_ndev l_error_wiphy_register l_error_wiphy l_error
navifly_create_context_lem o h =
    table o.kmalloc o.wiphy_new o.wiphy_register o.alloc_netdev o.register_netdev
  where
    table :
        (a b c d e : Bool)
        → let o : Outcomes = record {
          kmalloc = a;
          wiphy_new = b;
          wiphy_register = c;
          alloc_netdev = d;
          register_netdev = e;
        } in
          navifly_create_context o h
          ≡ some (if all_succeed o then (true, complete h) else (false, h))
    table false b c d e = refl
    table true false c d e = refl
    table true true false d e = refl
    table true true true false e = refl
    table true true true true false = refl
    table true true true true true = refl

-- The unload after a load that failed uses the context that `g_ctx` does not point to, since the load
-- returned 1, which is no error; after a load that succeeded it gives back all that the load acquired.
virtual_wifi_init-virtual_wifi_exit :
    (o : Outcomes) (h : Held)
    → (virtual_wifi_init o h
        ≡ some (if all_succeed o then (0, true, complete h) else (1, false, h)))
      × ((virtual_wifi_init o h >>= λ r. virtual_wifi_exit r.1 r.2)
          ≡ (if all_succeed o then some h else none))
unfolding virtual_wifi_init virtual_wifi_exit navifly_free
virtual_wifi_init-virtual_wifi_exit o h =
    subst
      (λ m.
        ((m >>= λ made. some (init_result made))
          ≡ some (if all_succeed o then (0, true, complete h) else (1, false, h)))
        × ((m >>= (λ made. some (init_result made)) >>= λ r. virtual_wifi_exit r.1 r.2)
            ≡ (if all_succeed o then some h else none)))
      (sym (navifly_create_context_lem o h)) (cases (all_succeed o))
  where
    cases :
        (b : Bool)
        → let m : Option (Bool × Held) = some (if b then (true, complete h) else (false, h)) in
          ((m >>= λ made. some (init_result made))
            ≡ some (if b then (0, true, complete h) else (1, false, h)))
          × ((m >>= (λ made. some (init_result made)) >>= λ r. virtual_wifi_exit r.1 r.2)
              ≡ (if b then some h else none))
    cases true = (refl, refl)
    cases false = (refl, refl)
