-- ===== src/Wifi/Device.antt =====
-- dummy_wifi/virtualwifi.c: the context, the calls of cfg80211 and the work items.
use raspberrypimodules.Prelude.{
  ℕ, zero, suc, ◌+◌, Bool, true, false, ◌&&◌, List, [], ◌∷◌, ◌++◌, Option, none, some, ◌==◌, ltb,
  if◌then◌else◌, length, take, drop, set,
}
use raspberrypimodules.Prelude.Errno.{Ret, Errno}

-- What cfg80211 is told.
pub data Notice : Type 0 where
  bss_found : Notice
  scan_done : Option ℕ → Notice
  connected connect_timeout : Notice
  disconnected : ℕ → Notice

-- `struct navifly_context`: a work item is pending or not; the scan request is a number.
pub record Context : Type 0 where
  pub ws_connect : Bool
  pub connecting_ssid : List ℕ
  pub ws_disconnect : Bool
  pub disconnect_reason_code : ℕ
  pub ws_scan : Bool
  pub scan_request : Option ℕ
  pub notices : List Notice

-- SSID_DUMMY with its NUL.
abbrev pub ssid_dummy : List ℕ
ssid_dummy = 78 ∷ 97 ∷ 118 ∷ 105 ∷ 102 ∷ 108 ∷ 121 ∷ 87 ∷ 73 ∷ 70 ∷ 73 ∷ 0 ∷ []

abbrev pub notify : Notice → Context → Context
notify n c = record c { notices = n ∷ c.notices }

-- Whether `memcmp(a, b, n)` is 0.
abbrev pub memcmp_eq : ℕ → List ℕ → List ℕ → Bool
memcmp_eq zero a b = true
memcmp_eq (suc n) [] b = false
memcmp_eq (suc n) (x ∷ a) [] = false
memcmp_eq (suc n) (x ∷ a) (y ∷ b) = (x == y) && memcmp_eq n a b

-- `navifly_scan_routine`; `woken` if a signal interrupts `down_interruptible`.
unfoldable pub scan_routine : (woken : Bool) → Context → Context
scan_routine woken c =
    let d = notify Notice.bss_found (record c { ws_scan = false }) in
    if woken then d else record (notify (Notice.scan_done d.scan_request) d) { scan_request = none }

-- `navifly_disconnect_routine`
unfoldable pub disconnect_routine : (woken : Bool) → Context → Context
disconnect_routine woken c =
    let d = record c { ws_disconnect = false } in
    if woken then d else record (notify (Notice.disconnected d.disconnect_reason_code) d) {
      disconnect_reason_code = 0;
    }

-- `navifly_connect_routine`
unfoldable pub connect_routine : (woken : Bool) → Context → Context
connect_routine woken c =
    let d = record c { ws_connect = false } in
    if woken
    then d
    else record (if memcmp_eq 12 d.connecting_ssid ssid_dummy
        then notify Notice.connected (notify Notice.bss_found d)
        else notify Notice.connect_timeout d) { connecting_ssid = set d.connecting_ssid 0 0 }

-- A request that finds no other; `schedule_work` fails where the item is pending.
abbrev pub queue_scan : Option ℕ → ℕ → Context → Ret × Context
queue_scan (some r) request c = (Ret.error Errno.ebusy, c)
queue_scan none request c =
    let d = record c { scan_request = some request } in
    if d.ws_scan then (Ret.error Errno.ebusy, d) else (Ret.value 0, record d { ws_scan = true })

-- `nvf_scan`
unfoldable pub nvf_scan : (woken : Bool) → ℕ → Context → Ret × Context
nvf_scan true request c = (Ret.error Errno.erestartsys, c)
nvf_scan false request c = queue_scan c.scan_request request c

-- `nvf_disconnect`
unfoldable pub nvf_disconnect : (woken : Bool) → ℕ → Context → Ret × Context
nvf_disconnect true reason_code c = (Ret.error Errno.erestartsys, c)
nvf_disconnect false reason_code c =
    let d = record c { disconnect_reason_code = reason_code } in
    if d.ws_disconnect
    then (Ret.error Errno.ebusy, d)
    else (Ret.value 0, record d { ws_disconnect = true })

-- The copy of the SSID and its NUL into the 12 bytes of `connecting_ssid`; none writes past them.
abbrev pub store_ssid : List ℕ → Context → Option Context
store_ssid ssid c =
    if ltb (length c.connecting_ssid) (length ssid + 1)
    then none
    else some
        (record c { connecting_ssid = ssid ++ (0 ∷ drop (length ssid + 1) c.connecting_ssid) })

abbrev pub schedule_connect : Option Context → Option (Ret × Context)
schedule_connect none = none
schedule_connect (some d) =
    if d.ws_connect
    then some (Ret.error Errno.ebusy, d)
    else some (Ret.value 0, record d { ws_connect = true })

-- `nvf_connect`; the SSID may be NULL, and is cut to 15 bytes.
unfoldable pub nvf_connect : (woken : Bool) → Option (List ℕ) → Context → Option (Ret × Context)
nvf_connect woken none c = some (Ret.error Errno.ebusy, c)
nvf_connect woken (some []) c = some (Ret.error Errno.ebusy, c)
nvf_connect true (some (x ∷ ssid)) c = some (Ret.error Errno.erestartsys, c)
nvf_connect false (some (x ∷ ssid)) c = schedule_connect (store_ssid (take 15 (x ∷ ssid)) c)
