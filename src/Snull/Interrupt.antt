-- ===== src/Snull/Interrupt.antt =====
-- snull/snull.c, the two interrupt handlers and the choice between them.
use raspberrypimodules.Prelude.{
  ℕ, Bool, false, not, List, [], ◌∷◌, Option, none, some, ◌==◌, bit_and, if◌then◌else◌,
}
use raspberrypimodules.Snull.Types.{
  DevId, Packet, Stats, Call, Env, add_ulong, snull_rx_intr, snull_tx_intr,
}
use raspberrypimodules.Snull.Monad.{
  Cmd, pure, skip, ◌>>=◌, ◌>>◌, get_priv, put_priv, call, spin_lock, spin_unlock,
}
use raspberrypimodules.Snull.Pool.{release_buffer}
use raspberrypimodules.Snull.Receive.{rx_ints, rx}

-- `statusword & flag`, as a condition.
abbrev pub has_flag : ℕ → ℕ → Bool
has_flag statusword flag = not (bit_and statusword flag == 0)

abbrev pub count_sent : ℕ → Stats → Stats
count_sent n s = record s {
  tx_packets = add_ulong s.tx_packets 1;
  tx_bytes = add_ulong s.tx_bytes n;
}

-- `statusword = priv->status; priv->status = 0`
abbrev pub read_status : DevId → Cmd ℕ
read_status d = do p ← get_priv d; put_priv d (record p { status = 0 }); pure p.status

-- A transmission is over: the statistics, and the socket buffer is freed.
unfoldable pub tx_done : DevId → Cmd (Unit {0})
tx_done d = do
  p ← get_priv d
  put_priv d (record p { stats = count_sent p.tx_packetlen p.stats })
  call (Call.dev_kfree_skb p.skb)

-- The end of the locked part: the transmit interrupt, and the lock is given back.
unfoldable pub finish : DevId → ℕ → Cmd (Unit {0})
finish d statusword = do
  if has_flag statusword snull_tx_intr then tx_done d else skip
  spin_unlock d

unfoldable pub release_taken : Option Packet → Cmd (Unit {0})
release_taken none = skip
release_taken (some pkt) = release_buffer pkt

module _ (env : Env) where
  -- The first packet of the receive queue goes to `snull_rx`.
  unfoldable pub take_rx : DevId → List Packet → Cmd (Option Packet)
  take_rx d [] = pure none
  take_rx d (pkt ∷ rest) = do
    p ← get_priv d
    put_priv d (record p { rx_queue = rest })
    rx env d pkt
    pure (some pkt)

  -- `snull_regular_interrupt` up to the end of its locked part: the packet that was taken.
  unfoldable pub serve : DevId → Cmd (Option Packet)
  unfolding take_rx
  serve d = do
    spin_lock d
    statusword ← read_status d
    p ← get_priv d
    pkt ← if has_flag statusword snull_rx_intr then take_rx d p.rx_queue else pure none
    finish d statusword
    pure pkt

  -- `snull_regular_interrupt`, at a device that is not NULL.
  unfoldable pub regular_interrupt : DevId → Cmd (Unit {0})
  unfolding release_taken
  regular_interrupt d = do pkt ← serve d; release_taken pkt

  -- `snull_napi_interrupt`, at a device that is not NULL.
  unfoldable pub napi_interrupt : DevId → Cmd (Unit {0})
  napi_interrupt d = do
    spin_lock d
    statusword ← read_status d
    if has_flag statusword snull_rx_intr
        then (do rx_ints d false; call (Call.napi_schedule d))
        else skip
    finish d statusword

  -- `snull_interrupt`, as `snull_init_module` sets it.
  unfoldable pub interrupt : DevId → Cmd (Unit {0})
  interrupt d = if env.use_napi then napi_interrupt d else regular_interrupt d
