-- ===== src/Snull/Pool.antt =====
-- snull/snull.c, the packet pool and the receive queue.
use raspberrypimodules.Prelude.{
  ℕ, zero, suc, ◌&&◌, List, [], ◌∷◌, Option, none, some, is_nil, if◌then◌else◌,
}
use raspberrypimodules.Snull.Types.{DevId, Packet, Call}
use raspberrypimodules.Snull.Monad.{
  Fault, Cmd, pure, skip, crash, ◌>>=◌, ◌>>◌, get_priv, put_priv, get_net, call, spin_lock,
  spin_unlock, netif_stop_queue, netif_wake_queue,
}

-- The loop of `snull_setup_pool` with the rounds left; `kmalloc i` is what the allocation returns
-- when `i` rounds are left, with what the memory holds.
unfoldable pub setup_loop : (ℕ → Option Packet) → DevId → ℕ → Cmd (Unit {0})
setup_loop kmalloc d zero = skip
setup_loop kmalloc d (suc i) = elim (kmalloc i) [
  | none ↦ skip
  | some pkt ↦ do
    p ← get_priv d
    put_priv d (record p { ppool = record pkt { dev = d } ∷ p.ppool })
    setup_loop kmalloc d i
]

-- `snull_setup_pool`
unfoldable pub setup_pool : (ℕ → Option Packet) → ℕ → DevId → Cmd (Unit {0})
unfolding setup_loop
setup_pool kmalloc pool_size d = do
  p ← get_priv d
  put_priv d (record p { ppool = [] })
  setup_loop kmalloc d pool_size

-- The loop of `snull_teardown_pool`, over the packets of the pool.
unfoldable pub teardown_loop : DevId → List Packet → Cmd (Unit {0})
teardown_loop d [] = skip
teardown_loop d (pkt ∷ rest) = do
  p ← get_priv d
  put_priv d (record p { ppool = rest })
  call (Call.kfree pkt.addr)
  teardown_loop d rest

-- `snull_teardown_pool`
unfoldable pub teardown_pool : DevId → Cmd (Unit {0})
unfolding teardown_loop
teardown_pool d = do p ← get_priv d; teardown_loop d p.ppool

take_buffer : DevId → List Packet → Cmd Packet
take_buffer d [] = crash Fault.null_deref
take_buffer d (pkt ∷ rest) = do
  p ← get_priv d
  put_priv d (record p { ppool = rest })
  if is_nil rest then netif_stop_queue d else skip
  spin_unlock d
  pure pkt

-- `snull_get_tx_buffer`
unfoldable pub get_tx_buffer : DevId → Cmd Packet
unfolding take_buffer
get_tx_buffer d = do spin_lock d; p ← get_priv d; take_buffer d p.ppool

-- The body of `snull_release_buffer`, with `d` for `pkt->dev`.
unfoldable pub release_to : DevId → Packet → Cmd (Unit {0})
release_to d pkt = do
  spin_lock d
  p ← get_priv d
  put_priv d (record p { ppool = pkt ∷ p.ppool })
  spin_unlock d
  n ← get_net d
  if n.queue_stopped && is_nil p.ppool then netif_wake_queue d else skip

-- `snull_release_buffer`
unfoldable pub release_buffer : Packet → Cmd (Unit {0})
release_buffer pkt = release_to pkt.dev pkt

-- `snull_enqueue_buf`
unfoldable pub enqueue_buf : DevId → Packet → Cmd (Unit {0})
enqueue_buf d pkt = do
  spin_lock d
  p ← get_priv d
  put_priv d (record p { rx_queue = pkt ∷ p.rx_queue })
  spin_unlock d

-- The first packet of the receive queue is unlinked; NULL if there is none.
abbrev unlink_first : DevId → List Packet → Cmd (Option Packet)
unlink_first d [] = pure none
unlink_first d (pkt ∷ rest) = do
  p ← get_priv d
  put_priv d (record p { rx_queue = rest })
  pure (some pkt)

-- `snull_dequeue_buf`
unfoldable pub dequeue_buf : DevId → Cmd (Option Packet)
dequeue_buf d = do
  spin_lock d
  p ← get_priv d
  pkt ← unlink_first d p.rx_queue
  spin_unlock d
  pure pkt
