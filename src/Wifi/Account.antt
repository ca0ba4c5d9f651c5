-- ===== src/Wifi/Account.antt =====
-- dummy_wifi/virtualwifi.c: every scan request that is accepted is done once, in order.
use raspberrypimodules.Prelude.{
  ℕ, ◌+◌, ◌≤◌, ◌≡◌, refl, ap, ◌∙◌, Bool, true, false, List, [], ◌∷◌, ◌++◌, Option, none, some, ltb,
  if◌then◌else◌, length, take, drop, set, arith, length-append, length-take, length-drop,
  length-set,
}
use raspberrypimodules.Wifi.Device.{
  Context, Notice, scan_routine, connect_routine, disconnect_routine, store_ssid, nvf_scan,
  nvf_connect, nvf_disconnect, memcmp_eq, ssid_dummy, notify,
}
use raspberrypimodules.Wifi.System.{Event, handle, run, Accounted, Fits, AllFit}

-- An event after which all is accounted for.
abbrev Handled : Event → List (Option ℕ) → Context → Type 0
Handled e accepted c =
    (after : List (Option ℕ) × Context) × (handle e c ≡ some after)
    × Accounted (after.0 ++ accepted) after.1

-- The context with these fields of a scan.
abbrev with_scan : Context → (ws : Bool) (q : Option ℕ) → Context
with_scan c ws q = record c { ws_scan = ws; scan_request = q }

scan_cases :
    (r : ℕ) (accepted : List (Option ℕ)) (c : Context) (ws : Bool) (q : Option ℕ)
    → Accounted accepted (with_scan c ws q)
    → Handled (Event.scan r) accepted (with_scan c ws q)
unfolding handle nvf_scan
scan_cases r accepted c true none a = absurd (cc a.pending)
scan_cases r accepted c false none a = (
  (some r ∷ [], with_scan c true (some r)),
  refl,
  record { requests = ap (λ l. some r ∷ l) a.requests; pending = refl; room = a.room },
)
scan_cases r accepted c ws (some p) a = (([], with_scan c ws (some p)), refl, a)

scan_work_cases :
    (accepted : List (Option ℕ)) (c : Context) (ws : Bool) (q : Option ℕ)
    → Accounted accepted (with_scan c ws q)
    → Handled Event.scan_work accepted (with_scan c ws q)
unfolding handle scan_routine
scan_work_cases accepted c false q a = (([], with_scan c false q), refl, a)
scan_work_cases accepted c true none a = absurd (cc a.pending)
scan_work_cases accepted c true (some p) a = (
  ([], scan_routine false (with_scan c true (some p))),
  refl,
  record { requests = a.requests; pending = refl; room = a.room },
)

disconnect_cases :
    (reason : ℕ) (accepted : List (Option ℕ)) (c : Context) (wd : Bool)
    → Accounted accepted (record c { ws_disconnect = wd })
    → Handled (Event.disconnect reason) accepted (record c { ws_disconnect = wd })
      × Handled Event.disconnect_work accepted (record c { ws_disconnect = wd })
unfolding handle nvf_disconnect disconnect_routine
disconnect_cases reason accepted c false a =
    ((_, refl, record { requests = a.requests; pending = a.pending; room = a.room }), (_, refl, a))
disconnect_cases reason accepted c true a = (
  (_, refl, record { requests = a.requests; pending = a.pending; room = a.room }),
  (_, refl, record { requests = a.requests; pending = a.pending; room = a.room }),
)

connected_or_not :
    (known : Bool) (accepted : List (Option ℕ)) (c : Context)
    → Accounted accepted c
    → Accounted accepted
        (record (if known
          then notify Notice.connected (notify Notice.bss_found c)
          else notify Notice.connect_timeout c) { connecting_ssid = set c.connecting_ssid 0 0 })
connected_or_not true accepted c a = record {
  requests = a.requests;
  pending = a.pending;
  room = length-set c.connecting_ssid 0 0 ∙ a.room;
}
connected_or_not false accepted c a = record {
  requests = a.requests;
  pending = a.pending;
  room = length-set c.connecting_ssid 0 0 ∙ a.room;
}

connect_work_cases :
    (accepted : List (Option ℕ)) (c : Context) (wc : Bool)
    → Accounted accepted (record c { ws_connect = wc })
    → Handled Event.connect_work accepted (record c { ws_connect = wc })
unfolding handle connect_routine
connect_work_cases accepted c false a = (_, refl, a)
connect_work_cases accepted c true a = (
  _,
  refl,
  connected_or_not (memcmp_eq 12 c.connecting_ssid ssid_dummy) accepted
      (record c { ws_connect = false })
      (record { requests = a.requests; pending = a.pending; room = a.room }),
)

stored :
    (ssid rest : List ℕ)
    → length ssid ≤ 11
    → length rest ≡ 12
    → length (ssid ++ (0 ∷ drop (length ssid + 1) rest)) ≡ 12
stored ssid rest fits room = omega (
  arith,
  length-append ssid (0 ∷ drop (length ssid + 1) rest),
  length-drop (length ssid + 1) rest,
)

fits_not : (n m : ℕ) → n ≡ 12 → m ≤ 11 → ltb n (m + 1) ≡ false
fits_not n m e h = ground arith

-- The context with the SSID and its NUL.
abbrev with_ssid : List ℕ → Context → Context
with_ssid ssid c = record c {
  connecting_ssid = ssid ++ (0 ∷ drop (length ssid + 1) c.connecting_ssid);
}

store_ssid-fits :
    (ssid : List ℕ) (c : Context)
    → length ssid ≤ 11
    → length c.connecting_ssid ≡ 12
    → store_ssid ssid c ≡ some (with_ssid ssid c)
store_ssid-fits ssid c fits room = simp (fits_not _ (length ssid) room fits) refl

connect_cases :
    (ssid : List ℕ) (accepted : List (Option ℕ)) (c : Context) (wc : Bool)
    → length ssid ≤ 11
    → Accounted accepted (record c { ws_connect = wc })
    → Handled (Event.connect ssid) accepted (record c { ws_connect = wc })
unfolding handle nvf_connect
connect_cases [] accepted c wc fits a = (_, refl, a)
connect_cases (x ∷ ssid) accepted c false fits a =
    let short : length (take 15 (x ∷ ssid)) ≤ 11 = omega (arith, length-take 14 ssid) in
    (
      ([], record (with_ssid (take 15 (x ∷ ssid)) c) { ws_connect = true }),
      rw (store_ssid-fits (take 15 (x ∷ ssid)) (record c { ws_connect = false }) short a.room) refl,
      record {
        requests = a.requests;
        pending = a.pending;
        room = stored (take 15 (x ∷ ssid)) c.connecting_ssid short a.room;
      },
    )
connect_cases (x ∷ ssid) accepted c true fits a =
    let short : length (take 15 (x ∷ ssid)) ≤ 11 = omega (arith, length-take 14 ssid) in
    (
      ([], record (with_ssid (take 15 (x ∷ ssid)) c) { ws_connect = true }),
      rw (store_ssid-fits (take 15 (x ∷ ssid)) (record c { ws_connect = true }) short a.room) refl,
      record {
        requests = a.requests;
        pending = a.pending;
        room = stored (take 15 (x ∷ ssid)) c.connecting_ssid short a.room;
      },
    )

handle-Accounted :
    (e : Event) (accepted : List (Option ℕ)) (c : Context)
    → Fits e
    → Accounted accepted c
    → Handled e accepted c
handle-Accounted (Event.scan r) accepted c fits a =
    scan_cases r accepted c c.ws_scan c.scan_request a
handle-Accounted (Event.connect ssid) accepted c fits a =
    connect_cases ssid accepted c c.ws_connect fits a
handle-Accounted (Event.disconnect k) accepted c fits a =
    (disconnect_cases k accepted c c.ws_disconnect a).0
handle-Accounted Event.scan_work accepted c fits a =
    scan_work_cases accepted c c.ws_scan c.scan_request a
handle-Accounted Event.connect_work accepted c fits a = connect_work_cases accepted c c.ws_connect a
handle-Accounted Event.disconnect_work accepted c fits a =
    (disconnect_cases 0 accepted c c.ws_disconnect a).1

-- From a context with no scan that is set or done and twelve bytes for the SSID, whatever the order of calls and work items, where no signal comes and no SSID is
-- longer than 11 bytes: nothing is written past the end, and the scan requests that were accepted are those that
-- cfg80211 was told to be done, once each and in the order of their calls, with at most the latest still set; its
-- work item is pending then.
pub run-Accounted :
    (es : List Event) (c : Context)
    → AllFit es
    → Accounted [] c
    → (after : List (Option ℕ) × Context) × (run es c ≡ some after) × Accounted after.0 after.1
unfolding run
run-Accounted [] c fits a = (([], c), refl, a)
run-Accounted (e ∷ earlier) c fits a =
    let before = run-Accounted earlier c fits.1 a in
    let now = handle-Accounted e before.0.0 before.0.1 fits.0 before.2 in
    ((now.0.0 ++ before.0.0, now.0.1), rw (before.1, now.1) refl, now.2)
