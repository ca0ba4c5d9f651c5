-- ===== src/Snull/Transmit.antt =====
-- snull/snull.c, the transmitting side: `snull_hw_tx`, `snull_tx` and `snull_tx_timeout`.
use raspberrypimodules.Prelude.{
  ℕ, ◌+◌, ◌-◌, ◌/◌, ◌%◌, Bool, ◌&&◌, not, List, ◌++◌, some, bit_or, bit_xor, ◌==◌, ltb,
  if◌then◌else◌, length, get_or, set, drop, replicate, memcpy,
}
use raspberrypimodules.Snull.Types.{
  DevId, Packet, Stats, Skb, Env, twin, add_ulong, eth_data_len, eth_zlen, sizeof_ethhdr,
  sizeof_iphdr, snull_rx_intr, snull_tx_intr,
}
use raspberrypimodules.Snull.Monad.{
  Fault, Cmd, pure, skip, crash, ◌>>=◌, ◌>>◌, get_priv, put_priv, netif_stop_queue,
  netif_wake_queue,
}
use raspberrypimodules.Snull.Pool.{get_tx_buffer, enqueue_buf}
use raspberrypimodules.Snull.Interrupt.{interrupt}

-- Byte `i` of a frame is xored with 1.
abbrev pub toggle : ℕ → List ℕ → List ℕ
toggle i buf = set buf i (bit_xor (get_or buf i 0) 1)

-- The places of `((u8 *)saddr)[2]`, `((u8 *)daddr)[2]` and `ih->check` in the frame.
abbrev pub saddr_octet : ℕ
saddr_octet = 28

abbrev pub daddr_octet : ℕ
daddr_octet = 32

abbrev pub check_at : ℕ
check_at = 24

-- A 16-bit store, low byte first.
abbrev pub store16 : ℕ → ℕ → List ℕ → List ℕ
store16 i v buf = set (set buf i (v % 256)) (i + 1) (v / 256 % 256)

-- `ih->ihl`: the low nibble of the first byte of the header.
abbrev pub ihl : List ℕ → ℕ
ihl buf = get_or buf sizeof_ethhdr 0 % 16

-- The third octets of both addresses change.
unfoldable pub swap_networks : List ℕ → List ℕ
swap_networks buf = toggle daddr_octet (toggle saddr_octet buf)

-- The frame that is sent: a short one is padded with zeros to ETH_ZLEN.
unfoldable pub pad : List ℕ → List ℕ
pad bytes =
    if ltb (length bytes) eth_zlen then bytes ++ replicate (eth_zlen - length bytes) 0 else bytes

module _ (env : Env) where
  -- `ih->check = 0; ih->check = ip_fast_csum(ih, ih->ihl)`
  unfoldable pub rebuild_checksum : List ℕ → List ℕ
  rebuild_checksum buf =
      let cleared = store16 check_at 0 buf in
      store16 check_at (env.ip_fast_csum (drop sizeof_ethhdr cleared) (ihl cleared)) cleared

  -- What `snull_hw_tx` makes of the frame before it is sent.
  unfoldable pub rewrite_frame : List ℕ → List ℕ
  rewrite_frame buf = rebuild_checksum (swap_networks buf)

  -- Is the transmit interrupt dropped, to simulate a lockup?
  unfoldable pub locks_up : Stats → Bool
  locks_up s = not (env.lockup == 0) && (add_ulong s.tx_packets 1 % env.lockup == 0)

  -- `memcpy(tx_buffer->data, buf, len)` into the `ETH_DATA_LEN` bytes of the packet.
  unfoldable pub fill : Packet → List ℕ → ℕ → Cmd Packet
  fill pkt buf len =
      if ltb eth_data_len len
      then crash Fault.overflow
      else pure (record pkt { datalen = len; bytes = memcpy pkt.bytes buf len })

  -- The receive interrupt on the twin device, if it is enabled.
  unfoldable pub signal_rx : DevId → Cmd (Unit {0})
  signal_rx d = do
    p ← get_priv d
    if p.rx_int_enabled
        then (do put_priv d (record p { status = bit_or p.status snull_rx_intr }); interrupt env d)
        else skip

  -- The transmit interrupt, or a lockup.
  unfoldable pub signal_tx : DevId → List ℕ → ℕ → Cmd (Unit {0})
  unfolding locks_up
  signal_tx d buf len = do
    p ← get_priv d
    put_priv d (record p {
      tx_packetlen = len;
      tx_packetdata = buf;
      status = bit_or p.status snull_tx_intr;
    })
    if locks_up p.stats then netif_stop_queue d else interrupt env d

  -- `snull_hw_tx`
  unfoldable pub hw_tx : List ℕ → ℕ → DevId → Cmd (Unit {0})
  hw_tx buf len d = if ltb len (sizeof_ethhdr + sizeof_iphdr) then skip else do
    let sent = rewrite_frame buf
    tx_buffer ← get_tx_buffer d
    filled ← fill tx_buffer sent len
    enqueue_buf (twin d) filled
    signal_rx (twin d)
    signal_tx d sent len

  -- `snull_tx`
  unfoldable pub tx : Skb → DevId → Cmd ℕ
  unfolding pad
  tx skb d = do
    p ← get_priv d
    put_priv d (record p { skb = some skb.id })
    hw_tx (pad skb.bytes) (if ltb (length skb.bytes) eth_zlen then eth_zlen else length skb.bytes) d
    pure 0

  -- `snull_tx_timeout`
  unfoldable pub tx_timeout : DevId → Cmd (Unit {0})
  tx_timeout d = do
    p ← get_priv d
    put_priv d (record p { status = snull_tx_intr })
    interrupt env d
    q ← get_priv d
    put_priv d (record q { stats = record (q.stats) { tx_errors = add_ulong q.stats.tx_errors 1 } })
    netif_wake_queue d
