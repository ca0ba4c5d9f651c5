-- ===== src/Wifi/Tests.antt =====
-- The theorems on dummy_wifi/virtualwifi.c at a fresh context.
use raspberrypimodules.Prelude.{
  ℕ, ◌≡◌, refl, true, false, [], ◌∷◌, none, some, replicate, length, length-replicate,
}
use raspberrypimodules.Prelude.Errno.{Ret, Errno}
use raspberrypimodules.Wifi.Device.{Context, Notice, scan_routine, nvf_scan}
use raspberrypimodules.Wifi.Context.{Outcomes, Part, navifly_create_context}
use raspberrypimodules.Wifi.Context.Unwind.{navifly_create_context_lem}
use raspberrypimodules.Prelude.{List, Option, arith}
use raspberrypimodules.Wifi.System.{Event, run, Accounted}
use raspberrypimodules.Wifi.Account.{run-Accounted}
use raspberrypimodules.Wifi.Scan.{scans, nvf_scan-scan_routine}

-- As `virtual_wifi_init` leaves it.
abbrev fresh : Context
fresh = record {
  ws_connect = false;
  connecting_ssid = replicate 12 0;
  ws_disconnect = false;
  disconnect_reason_code = 0;
  ws_scan = false;
  scan_request = none;
  notices = [];
}

ssid_size : length fresh.connecting_ssid ≡ 12
ssid_size = length-replicate {A = ℕ} 12 0

nvf_scan-scan_routine_example :
    let (r, d) = nvf_scan false 3 fresh in
    (r ≡ Ret.value 0)
    × ((scan_routine false d).notices ≡ Notice.scan_done (some 3) ∷ Notice.bss_found ∷ [])
    × ((nvf_scan false 4 (scan_routine false d)).0 ≡ Ret.value 0)
    × ((later : List ℕ)
        → (nvf_scan false 4 (scans later (scan_routine true d))).0 ≡ Ret.error Errno.ebusy)
    × (nvf_scan true 3 fresh ≡ (Ret.error Errno.erestartsys, fresh))
nvf_scan-scan_routine_example = nvf_scan-scan_routine 3 4 fresh refl refl

-- The network device cannot be registered.
abbrev unregistered : Outcomes
unregistered = record {
  kmalloc = true;
  wiphy_new = true;
  wiphy_register = true;
  alloc_netdev = true;
  register_netdev = false;
}

navifly_create_context_lem_example :
    navifly_create_context unregistered (Part.ndev ∷ []) ≡ some (false, Part.ndev ∷ [])
navifly_create_context_lem_example = navifly_create_context_lem unregistered (Part.ndev ∷ [])

-- A scan that is done while a connection waits, and a second one that is still set.
abbrev events : List Event
events =
    Event.scan 8
    ∷ Event.connect_work
    ∷ Event.scan_work
    ∷ Event.scan 4
    ∷ Event.connect (1 ∷ 2 ∷ [])
    ∷ Event.scan 3
    ∷ []

run-Accounted_example :
    (after : List (Option ℕ) × Context) × (run events fresh ≡ some after)
    × Accounted after.0 after.1
run-Accounted_example =
    run-Accounted events fresh (tt, (tt, (tt, (tt, (omega arith, (tt, tt))))))
      (record { requests = refl; pending = refl; room = ssid_size })
