-- ===== src/Snull/Receive.antt =====
-- snull/snull.c, the receiving side: `snull_rx_ints`, `snull_rx` and the NAPI poll.
use raspberrypimodules.Prelude.{
  ℕ, zero, suc, ◌+◌, Bool, true, ◌&&◌, not, List, [], ◌∷◌, Option, none, some, is_nil, length, take,
  ltb, ◌==◌, if◌then◌else◌,
}
use raspberrypimodules.Snull.Types.{DevId, Packet, Stats, Priv, Call, Env, add_ulong}
use raspberrypimodules.Snull.Monad.{
  Fault, Cmd, pure, crash, ◌>>=◌, ◌>>◌, get_priv, put_priv, call, dev_alloc_skb,
}
use raspberrypimodules.Snull.Pool.{release_buffer, dequeue_buf}

-- `snull_rx_ints`
unfoldable pub rx_ints : DevId → Bool → Cmd (Unit {0})
rx_ints d enable = do p ← get_priv d; put_priv d (record p { rx_int_enabled = enable })

-- `priv->stats.rx_dropped++`
abbrev pub count_dropped : Stats → Stats
count_dropped s = record s { rx_dropped = add_ulong s.rx_dropped 1 }

-- `priv->stats.rx_packets++; priv->stats.rx_bytes += n`
abbrev pub count_received : ℕ → Stats → Stats
count_received n s = record s {
  rx_packets = add_ulong s.rx_packets 1;
  rx_bytes = add_ulong s.rx_bytes n;
}

abbrev pub drop_packet : DevId → Cmd (Unit {0})
drop_packet d = do p ← get_priv d; put_priv d (record p { stats = count_dropped p.stats })

-- The packet goes to the upper levels, and is counted.
abbrev pub pass_up : DevId → Packet → Cmd (Unit {0})
pass_up d pkt = do
  p ← get_priv d
  put_priv d (record p { stats = count_received pkt.datalen p.stats })
  call (Call.netif_rx d (take pkt.datalen pkt.bytes))

-- As `pass_up`, in the poll: the device whose statistics count is `self`.
abbrev pub receive_packet : DevId → DevId → Packet → Cmd (Unit {0})
receive_packet self d pkt = do
  call (Call.netif_receive_skb d (take pkt.datalen pkt.bytes))
  p ← get_priv self
  put_priv self (record p { stats = count_received pkt.datalen p.stats })

module _ (env : Env) where
  -- `snull_rx`
  unfoldable pub rx : DevId → Packet → Cmd (Unit {0})
  rx d pkt = do
    got ← dev_alloc_skb env (pkt.datalen + 2)
    if got then pass_up d pkt else drop_packet d

  -- One round of the loop of `snull_poll`, with the packet dequeued: whether it counts. `self` is
  -- the device that owns the `napi_struct`.
  unfoldable pub poll_packet : DevId → DevId → Packet → Cmd Bool
  poll_packet self d pkt = do
    got ← dev_alloc_skb env (pkt.datalen + 2)
    if got then receive_packet self d pkt else drop_packet self
    release_buffer pkt
    pure got

  unfoldable pub poll_next : DevId → DevId → Option Packet → Cmd Bool
  poll_next self d none = crash Fault.null_deref
  poll_next self d (some pkt) = poll_packet self d pkt

  -- The loop of `snull_poll`, with fuel for its rounds.
  unfoldable pub poll_loop : ℕ → DevId → DevId → ℕ → ℕ → Cmd ℕ
  poll_loop zero self d budget npackets = crash Fault.out_of_fuel
  poll_loop (suc fuel) self d budget npackets = do
    p ← get_priv self
    if ltb npackets budget && not (is_nil p.rx_queue)
        then (do
          pkt ← dequeue_buf d
          counts ← poll_next self d pkt
          poll_loop fuel self d budget (if counts then npackets + 1 else npackets))
        else pure npackets

  unfoldable pub poll_end : DevId → DevId → ℕ → List Packet → Cmd ℕ
  poll_end self d npackets [] = do call (Call.napi_complete self); rx_ints d true; pure 0
  poll_end self d npackets (pkt ∷ rest) = pure npackets

  -- The body of `snull_poll` for the value of `priv->dev`: with NULL it gets past the device only
  -- if no round is made and packets are left.
  unfoldable pub poll_dev : DevId → ℕ → Priv → Option DevId → Cmd ℕ
  unfolding poll_loop poll_next poll_end
  poll_dev self budget p none =
      if budget == 0 && not (is_nil p.rx_queue) then pure 0 else crash Fault.null_deref
  poll_dev self budget p (some d) = do
    npackets ← poll_loop (length p.rx_queue + 1) self d budget 0
    q ← get_priv self
    poll_end self d npackets q.rx_queue

  -- `snull_poll`
  unfoldable pub poll : DevId → ℕ → Cmd ℕ
  unfolding poll_dev
  poll self budget = do p ← get_priv self; poll_dev self budget p p.dev
