-- ===== src/Snull/Config.antt =====
-- snull/snull.c, the operations on the interface: open, stop, configuration, MTU and the header.
use raspberrypimodules.Prelude.{
  ℕ, ◌+◌, ◌/◌, ◌%◌, ◌||◌, not, List, [], ◌∷◌, ◌++◌, Option, none, some, ◌==◌, if◌then◌else◌,
  bit_and, get_or, set, take, drop, memcpy,
}
use raspberrypimodules.Prelude.Errno.{Ret, Errno}
use raspberrypimodules.Prelude.Int.{ℤ, below, above, pos_part}
use raspberrypimodules.Snull.Types.{DevId, sn0, sn1, NetDev}
use raspberrypimodules.Snull.Monad.{
  Cmd, pure, skip, ◌>>=◌, ◌>>◌, get_net, put_net, netif_stop_queue, netif_wake_queue, spin_lock,
  spin_unlock,
}
use raspberrypimodules.Snull.Transmit.{toggle}

-- ETH_ALEN and IFF_UP.
abbrev pub eth_alen : ℕ
eth_alen = 6

abbrev pub iff_up : ℕ
iff_up = 1

-- `"\0SNUL0"`
abbrev pub snul0 : List ℕ
snul0 = 0 ∷ 0x53 ∷ 0x4e ∷ 0x55 ∷ 0x4c ∷ 0x30 ∷ []

-- `dev->dev_addr[ETH_ALEN-1]++` on the second device.
abbrev number_addr : DevId → List ℕ → List ℕ
number_addr sn0 addr = addr
number_addr sn1 addr = set addr 5 ((get_or addr 5 0 + 1) % 256)

-- `snull_open`
unfoldable pub open_dev : DevId → Cmd ℕ
open_dev d = do
  n ← get_net d
  put_net d (record n { dev_addr = number_addr d (memcpy n.dev_addr snul0 eth_alen) })
  netif_wake_queue d
  pure 0

-- `snull_release`
unfoldable pub release_dev : DevId → Cmd ℕ
release_dev d = do netif_stop_queue d; pure 0

-- The fields of `struct ifmap` that are read.
pub record IfMap : Type 0 where
  pub base_addr : ℕ
  pub irq : ℕ

-- `snull_config`
unfoldable pub config : DevId → IfMap → Cmd Ret
config d m = do
  n ← get_net d
  if not (bit_and n.flags iff_up == 0)
      then pure (Ret.error Errno.ebusy)
      else (if not (m.base_addr == n.base_addr) then pure (Ret.error Errno.eopnotsupp) else (do
        if not (m.irq == n.irq) then put_net d (record n { irq = m.irq }) else skip
        pure (Ret.value 0)))

-- `snull_change_mtu`
unfoldable pub change_mtu : DevId → ℤ → Cmd Ret
change_mtu d new_mtu =
    if below new_mtu 68 || above new_mtu 1500 then pure (Ret.error Errno.einval) else do
      spin_lock d
      n ← get_net d
      put_net d (record n { mtu = pos_part new_mtu })
      spin_unlock d
      pure (Ret.value 0)

-- `memcpy(&buf[at], src, len)`
abbrev pub memcpy_at : ℕ → List ℕ → List ℕ → ℕ → List ℕ
memcpy_at i buf src len = take i buf ++ memcpy (drop i buf) src len

-- `saddr ? saddr : dev->dev_addr`
abbrev pub or_own : NetDev → Option (List ℕ) → List ℕ
or_own n none = n.dev_addr
or_own n (some a) = a

-- `snull_header`: the packet with its 14 bytes of Ethernet header, which `skb_push` takes from the
-- headroom with what `room` they held, and the result.
unfoldable pub header :
    NetDev → (room packet : List ℕ) (type : ℕ) (daddr saddr : Option (List ℕ)) → List ℕ × ℕ
header n room packet type daddr saddr =
    let proto = set (set room 12 (type / 256 % 256)) 13 (type % 256) in
    let source = memcpy_at 6 proto (or_own n saddr) n.addr_len in
    let dest = memcpy_at 0 source (or_own n daddr) n.addr_len in
    (toggle 5 dest ++ packet, n.hard_header_len)
