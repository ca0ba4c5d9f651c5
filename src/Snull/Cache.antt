-- ===== src/Snull/Cache.antt =====
-- snull/snull.c and snull/snull_3dec2020.c: the cached and the rebuilt Ethernet header, the statistics and ioctl.
use raspberrypimodules.Prelude.{
  ℕ, ◌/◌, ◌%◌, ◌≡◌, refl, List, [], ◌∷◌, ◌++◌, none, some, take, drop, Bool, false, ◌==◌,
  if◌then◌else◌,
}
use raspberrypimodules.Prelude.Int.{ℤ, pos, negsuc}
use raspberrypimodules.Snull.Types.{DevId, Stats, NetDev}
use raspberrypimodules.Snull.Monad.{Cmd, pure, ◌>>=◌, get_priv}
use raspberrypimodules.Snull.Config.{memcpy_at, header}
use raspberrypimodules.Snull.Transmit.{toggle}
use raspberrypimodules.Snull.Frame.{room_of}

-- `snull_ioctl`
unfoldable pub ioctl : DevId → (cmd : ℕ) → Cmd ℕ
ioctl d cmd = pure 0

-- `snull_stats`
unfoldable pub stats_of : DevId → Cmd Stats
stats_of d = do p ← get_priv d; pure p.stats

-- Both addresses of the header are the device's own, and the last bit of the destination is changed.
unfoldable pub own_addresses : NetDev → List ℕ → List ℕ
own_addresses n eth =
    let source = memcpy_at 6 eth n.dev_addr n.addr_len in
    toggle 5 (memcpy_at 0 source n.dev_addr n.addr_len)

abbrev is_zero : ℤ → Bool
is_zero (pos n) = n == 0
is_zero (negsuc n) = false

-- What the kernel's `eth_header_cache` returns, and what it leaves in `hh_data`.
pub record Cached : Type 0 where
  pub ret : ℤ
  pub hh_data : List ℕ

-- `HH_DATA_OFF(sizeof(*eth))`: where a header of 14 bytes begins in the aligned `hh_data`.
abbrev pub hh_data_off : ℕ
hh_data_off = 2

-- `snull_header_cache`, behind `eth_header_cache`.
unfoldable pub header_cache : NetDev → Cached → Cached
header_cache n c =
    if is_zero c.ret
    then record c {
      hh_data = take hh_data_off c.hh_data ++ own_addresses n (drop hh_data_off c.hh_data);
    }
    else c

-- `snull_rebuild_header` of the version for kernel 5.
unfoldable pub rebuild_header : NetDev → (packet : List ℕ) → ℕ × List ℕ
rebuild_header n packet = (0, own_addresses n packet)

-- The six bytes of an address.
abbrev pub address_of : (ℕ → ℕ) → List ℕ
address_of g = g 0 ∷ g 1 ∷ g 2 ∷ g 3 ∷ g 4 ∷ g 5 ∷ []

-- What `eth_header_cache` is documented to leave: 16 bytes, the last two of them the type in network order.
abbrev pub with_type : (ℕ → ℕ) → (type : ℕ) → List ℕ
with_type f type =
    f 0
    ∷ f 1
    ∷ f 2
    ∷ f 3
    ∷ f 4
    ∷ f 5
    ∷ f 6
    ∷ f 7
    ∷ f 8
    ∷ f 9
    ∷ f 10
    ∷ f 11
    ∷ f 12
    ∷ f 13
    ∷ (type / 256 % 256)
    ∷ (type % 256)
    ∷ []

-- On a device with an address of six bytes, a header from the cache, a header that is built for no given
-- addresses, and a header for any addresses that is rebuilt are the same: where the kernel's `eth_header_cache`
-- succeeds and leaves the type in the last two of 16 bytes.
pub header_cache-header :
    (n : NetDev) (g f room : ℕ → ℕ) (type : ℕ) (packet : List ℕ) (a b : ℕ → ℕ)
    → n.addr_len ≡ 6
    → n.dev_addr ≡ address_of g
    → let cached = header_cache n (record { ret = pos 0; hh_data = with_type f type }) in
      let built = (header n (room_of room) packet type none none).0 in
      let given = header n (room_of room) packet type (some (address_of a)) (some (address_of b)) in
      (cached.ret ≡ pos 0)
      × (drop hh_data_off cached.hh_data ++ packet ≡ built)
      × (rebuild_header n given.0 ≡ (0, built))
unfolding header header_cache rebuild_header own_addresses
header_cache-header n g f room type packet a b l e = rw (l, e) (refl, refl, refl)
