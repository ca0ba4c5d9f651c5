-- ===== src/Wifi/Scan.antt =====
-- dummy_wifi/virtualwifi.c: scan requests, and the name of the network.
use raspberrypimodules.Prelude.{
  ℕ, subst, sym, ltb, ◌+◌, ◌≤◌, ◌≡◌, refl, true, false, List, [], ◌∷◌, none, some, arith, length,
  take, lt→ltb, length-take,
}
use raspberrypimodules.Prelude.Errno.{Ret, Errno}
use raspberrypimodules.Wifi.Device.{Context, Notice, scan_routine, nvf_scan, nvf_connect}

first_scan :
    (request : ℕ) (c : Context)
    → c.scan_request ≡ none
    → c.ws_scan ≡ false
    → nvf_scan false request c
      ≡ (Ret.value 0, record c { scan_request = some request; ws_scan = true })
unfolding nvf_scan
first_scan request c none_set idle = simp (none_set, idle) refl

-- Further requests, that no signal interrupts, one after the other.
abbrev pub scans : List ℕ → Context → Context
scans [] c = c
scans (r ∷ rest) c = scans rest (nvf_scan false r c).1

-- While a request is set, further ones change nothing, and the next one is refused.
refused :
    (later : List ℕ) (next : ℕ) (c : Context) (request : ℕ)
    → (nvf_scan false next (scans later (record c { scan_request = some request }))).0
      ≡ Ret.error Errno.ebusy
unfolding nvf_scan
refused [] next c request = refl
refused (r ∷ later) next c request = refused later next c request

-- In a context with no request set and no scan work pending, a scan that a signal interrupts returns -ERESTARTSYS and
-- changes nothing. One that no signal interrupts returns 0; the work item then completes this very request, so that the
-- next one is taken, unless a signal wakes the work item: then, after any number of further requests, the next one too
-- gets -EBUSY.
pub nvf_scan-scan_routine :
    (request next : ℕ) (c : Context)
    → c.scan_request ≡ none
    → c.ws_scan ≡ false
    → let (r, d) = nvf_scan false request c in
      (r ≡ Ret.value 0)
      × ((scan_routine false d).notices
          ≡ Notice.scan_done (some request) ∷ Notice.bss_found ∷ c.notices)
      × ((nvf_scan false next (scan_routine false d)).0 ≡ Ret.value 0)
      × ((later : List ℕ)
          → (nvf_scan false next (scans later (scan_routine true d))).0 ≡ Ret.error Errno.ebusy)
      × (nvf_scan true request c ≡ (Ret.error Errno.erestartsys, c))
unfolding nvf_scan scan_routine
nvf_scan-scan_routine request next c none_set idle =
    subst
      (λ p.
        (p.0 ≡ Ret.value 0)
        × ((scan_routine false p.1).notices
            ≡ Notice.scan_done (some request) ∷ Notice.bss_found ∷ c.notices)
        × ((nvf_scan false next (scan_routine false p.1)).0 ≡ Ret.value 0)
        × ((later : List ℕ)
            → (nvf_scan false next (scans later (scan_routine true p.1))).0 ≡ Ret.error Errno.ebusy)
        × (nvf_scan true request c ≡ (Ret.error Errno.erestartsys, c)))
      (sym (first_scan request c none_set idle))
      (refl, refl, refl, λ later. refused later next (scan_routine true c) request, refl)

-- An SSID of 12 bytes or more is written past the end of `connecting_ssid`.
nvf_connect-long :
    (ssid : List ℕ) (c : Context)
    → length c.connecting_ssid ≡ 12
    → 12 ≤ length ssid
    → nvf_connect false (some ssid) c ≡ none
unfolding nvf_connect
nvf_connect-long [] c room long = absurd (omega arith)
nvf_connect-long (x ∷ ssid) c room long =
    let over : ltb (length c.connecting_ssid) (length (x ∷ take 14 ssid) + 1) ≡ true =
      lt→ltb _ _ (omega (arith, length-take 14 ssid)) in
    simp over refl
