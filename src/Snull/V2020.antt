-- ===== src/Snull/V2020.antt =====
-- snull/snull_3dec2020.c, where it differs from snull/snull.c: the pool that may be empty, the NAPI
-- interrupt and poll, the transmission, the transmit timeout, open and stop.
pub mod Equal
pub mod Empty
pub mod Poll
pub mod Interrupt
pub mod Timeout
pub mod Transmit
pub mod Reach
mod Tests
use raspberrypimodules.Prelude.{
  ℕ, zero, suc, ◌+◌, Bool, true, false, ◌&&◌, not, List, [], ◌∷◌, Option, none, some, is_nil,
  length, ltb, bit_or, if◌then◌else◌,
}
use raspberrypimodules.Snull.Types.{
  DevId, Packet, Skb, Call, Env, twin, add_ulong, eth_zlen, sizeof_ethhdr, sizeof_iphdr,
  snull_rx_intr, snull_tx_intr,
}
use raspberrypimodules.Snull.Monad.{
  Fault, Cmd, pure, skip, crash, ◌>>=◌, ◌>>◌, get_priv, put_priv, call, spin_lock, spin_unlock,
  netif_stop_queue, netif_wake_queue,
}
use raspberrypimodules.Snull.Pool.{dequeue_buf, enqueue_buf, setup_pool, teardown_pool}
use raspberrypimodules.Snull.Receive.{rx_ints, poll_next}
use raspberrypimodules.Snull.Interrupt.{has_flag, count_sent, read_status, regular_interrupt}
use raspberrypimodules.Snull.Transmit.{pad, rewrite_frame, locks_up, fill}
use raspberrypimodules.Snull.Config.{open_dev, release_dev}

-- The pool is empty: the lock is kept.
take_buffer_2020 : DevId → List Packet → Cmd (Option Packet)
take_buffer_2020 d [] = pure none
take_buffer_2020 d (pkt ∷ rest) = do
  p ← get_priv d
  put_priv d (record p { ppool = rest })
  if is_nil rest then netif_stop_queue d else skip
  spin_unlock d
  pure (some pkt)

-- `snull_get_tx_buffer`
unfoldable pub get_tx_buffer_2020 : DevId → Cmd (Option Packet)
unfolding take_buffer_2020
get_tx_buffer_2020 d = do spin_lock d; p ← get_priv d; take_buffer_2020 d p.ppool

-- The socket buffer is freed and forgotten, if there is one.
unfoldable pub free_skb : DevId → Option ℕ → Cmd (Unit {0})
free_skb d none = skip
free_skb d (some skb) = do
  call (Call.dev_kfree_skb (some skb))
  p ← get_priv d
  put_priv d (record p { skb = none })

-- A transmission is over, in `snull_napi_interrupt`.
unfoldable pub tx_done_2020 : DevId → Cmd (Unit {0})
unfolding free_skb
tx_done_2020 d = do
  p ← get_priv d
  put_priv d (record p { stats = count_sent p.tx_packetlen p.stats })
  free_skb d p.skb

-- `snull_napi_interrupt`, at a device that is not NULL.
unfoldable pub napi_interrupt_2020 : DevId → Cmd (Unit {0})
napi_interrupt_2020 d = do
  spin_lock d
  statusword ← read_status d
  if has_flag statusword snull_rx_intr
      then (do rx_ints d false; call (Call.napi_schedule d))
      else skip
  if has_flag statusword snull_tx_intr then tx_done_2020 d else skip
  spin_unlock d

-- `snull_open` and `snull_release`
unfoldable pub open_2020 : Env → DevId → Cmd ℕ
open_2020 env d = do if env.use_napi then call (Call.napi_enable d) else skip; open_dev d

unfoldable pub release_2020 : Env → DevId → Cmd ℕ
release_2020 env d = do
  release_dev d
  if env.use_napi then call (Call.napi_disable d) else skip
  pure 0

module _ (env : Env) where
  -- `snull_interrupt`
  unfoldable pub interrupt_2020 : DevId → Cmd (Unit {0})
  interrupt_2020 d = if env.use_napi then napi_interrupt_2020 d else regular_interrupt env d

  -- The loop of `snull_poll`, with fuel for its rounds: a dropped packet counts too.
  unfoldable pub poll_loop_2020 : ℕ → DevId → DevId → ℕ → ℕ → Cmd ℕ
  poll_loop_2020 zero self d budget npackets = crash Fault.out_of_fuel
  poll_loop_2020 (suc fuel) self d budget npackets = do
    p ← get_priv self
    if ltb npackets budget && not (is_nil p.rx_queue)
        then (do
          pkt ← dequeue_buf d
          poll_next env self d pkt
          poll_loop_2020 fuel self d budget (npackets + 1))
        else pure npackets

  -- The end of `snull_poll`; `done` is the result of `napi_complete_done`.
  unfoldable pub poll_end_2020 : (done : Bool) → DevId → DevId → ℕ → ℕ → Cmd ℕ
  poll_end_2020 done self d budget npackets = do
    if ltb npackets budget
        then (do
          spin_lock self
          call (Call.napi_complete_done self npackets)
          if done then rx_ints d true else skip
          spin_unlock self)
        else skip
    pure npackets

  -- `snull_poll`, where `priv->dev` is recorded.
  unfoldable pub poll_2020 : (done : Bool) → DevId → DevId → ℕ → Cmd ℕ
  unfolding poll_loop_2020 poll_end_2020
  poll_2020 done self d budget = do
    p ← get_priv self
    npackets ← poll_loop_2020 (length p.rx_queue + 1) self d budget 0
    poll_end_2020 done self d budget npackets

  -- The receive interrupt on the twin device, if it is enabled.
  unfoldable pub signal_rx_2020 : DevId → Cmd (Unit {0})
  signal_rx_2020 d = do
    p ← get_priv d
    if p.rx_int_enabled
        then (do put_priv d (record p { status = bit_or p.status snull_rx_intr }); interrupt_2020 d)
        else skip

  -- The transmit interrupt, or a lockup.
  unfoldable pub signal_tx_2020 : DevId → List ℕ → ℕ → Cmd (Unit {0})
  signal_tx_2020 d buf len = do
    p ← get_priv d
    put_priv d (record p {
      tx_packetlen = len;
      tx_packetdata = buf;
      status = bit_or p.status snull_tx_intr;
    })
    if locks_up env p.stats then netif_stop_queue d else interrupt_2020 d

  -- `snull_hw_tx` behind the packet it got.
  unfoldable pub send_buffer : List ℕ → ℕ → DevId → Option Packet → Cmd (Unit {0})
  send_buffer sent len d none = skip
  send_buffer sent len d (some tx_buffer) = do
    filled ← fill env tx_buffer sent len
    enqueue_buf (twin d) filled
    signal_rx_2020 (twin d)
    signal_tx_2020 d sent len

  -- `snull_hw_tx`
  unfoldable pub hw_tx_2020 : List ℕ → ℕ → DevId → Cmd (Unit {0})
  hw_tx_2020 buf len d = if ltb len (sizeof_ethhdr + sizeof_iphdr) then skip else do
    let sent = rewrite_frame env buf
    tx_buffer ← get_tx_buffer_2020 d
    send_buffer sent len d tx_buffer

  -- `snull_tx`
  unfoldable pub tx_2020 : Skb → DevId → Cmd ℕ
  unfolding pad
  tx_2020 skb d = do
    call (Call.netif_trans_update d)
    p ← get_priv d
    put_priv d (record p { skb = some skb.id })
    hw_tx_2020 (pad skb.bytes)
        (if ltb (length skb.bytes) eth_zlen then eth_zlen else length skb.bytes) d
    pure 0

  -- `snull_tx_timeout`, with what `kmalloc` returns for the new pool.
  unfoldable pub tx_timeout_2020 : (kmalloc : ℕ → Option Packet) → DevId → Cmd (Unit {0})
  tx_timeout_2020 kmalloc d = do
    p ← get_priv d
    put_priv d (record p { status = bit_or p.status snull_tx_intr })
    interrupt_2020 d
    q ← get_priv d
    put_priv d (record q { stats = record (q.stats) { tx_errors = add_ulong q.stats.tx_errors 1 } })
    spin_lock d
    teardown_pool d
    setup_pool kmalloc env.pool_size d
    spin_unlock d
    netif_wake_queue d
