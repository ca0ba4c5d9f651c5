-- ===== src/Wifi/System.antt =====
-- dummy_wifi/virtualwifi.c: the calls of cfg80211 and the work items in any order, with no signal.
use raspberrypimodules.Prelude.{
  ℕ, ◌≤◌, ◌≡◌, Bool, true, false, List, [], ◌∷◌, ◌++◌, Option, none, some, if◌then◌else◌, length,
}
use raspberrypimodules.Prelude.Options.{◌>>=◌}
use raspberrypimodules.Prelude.Errno.{Ret}
use raspberrypimodules.Wifi.Device.{
  Context, Notice, scan_routine, connect_routine, disconnect_routine, nvf_scan, nvf_connect,
  nvf_disconnect,
}

pub data Event : Type 0 where
  scan : ℕ → Event
  connect : List ℕ → Event
  disconnect : ℕ → Event
  scan_work connect_work disconnect_work : Event

-- The request, where the call is answered with 0.
abbrev accepted_of : ℕ → Ret → List (Option ℕ)
accepted_of r (Ret.value n) = some r ∷ []
accepted_of r (Ret.error e) = []

abbrev ignore : Option (Ret × Context) → Option (List (Option ℕ) × Context)
ignore none = none
ignore (some (r, c)) = some ([], c)

-- One event, with the scan request that it accepts. A work item runs where it is pending; none is a write
-- past `connecting_ssid`.
unfoldable pub handle : Event → Context → Option (List (Option ℕ) × Context)
handle (Event.scan r) c = let (ret, d) = nvf_scan false r c in some (accepted_of r ret, d)
handle (Event.connect ssid) c = ignore (nvf_connect false (some ssid) c)
handle (Event.disconnect reason) c = some ([], (nvf_disconnect false reason c).1)
handle Event.scan_work c = some ([], if c.ws_scan then scan_routine false c else c)
handle Event.connect_work c = some ([], if c.ws_connect then connect_routine false c else c)
handle Event.disconnect_work c =
    some ([], if c.ws_disconnect then disconnect_routine false c else c)

-- The events one after the other, the latest first, with the requests that they accept, the latest first.
unfoldable pub run : List Event → Context → Option (List (Option ℕ) × Context)
run [] c = some ([], c)
run (e ∷ earlier) c = do
  before ← run earlier c
  after ← handle e before.1
  some (after.0 ++ before.0, after.1)

-- The requests that cfg80211 was told to be done, and the one that is set.
abbrev pub completed : List Notice → List (Option ℕ)
completed [] = []
completed (Notice.scan_done r ∷ ns) = r ∷ completed ns
completed (Notice.bss_found ∷ ns) = completed ns
completed (Notice.connected ∷ ns) = completed ns
completed (Notice.connect_timeout ∷ ns) = completed ns
completed (Notice.disconnected k ∷ ns) = completed ns

abbrev pub outstanding : Option ℕ → List (Option ℕ)
outstanding none = []
outstanding (some r) = some r ∷ []

abbrev pub is_set : Option ℕ → Bool
is_set none = false
is_set (some r) = true

-- Every request that was accepted is done, but the one that is set, whose work item is pending.
pub record Accounted (accepted : List (Option ℕ)) (c : Context) : Type 0 where
  pub requests : accepted ≡ outstanding c.scan_request ++ completed c.notices
  pub pending : c.ws_scan ≡ is_set c.scan_request
  pub room : length c.connecting_ssid ≡ 12

-- An SSID that fits with its NUL.
abbrev pub Fits : Event → Type 0
Fits (Event.scan r) = Unit
Fits (Event.connect ssid) = length ssid ≤ 11
Fits (Event.disconnect reason) = Unit
Fits Event.scan_work = Unit
Fits Event.connect_work = Unit
Fits Event.disconnect_work = Unit

abbrev pub AllFit : List Event → Type 0
AllFit [] = Unit
AllFit (e ∷ es) = Fits e × AllFit es
