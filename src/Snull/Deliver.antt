-- ===== src/Snull/Deliver.antt =====
-- What a transmission does to the other device when interrupts are regular: the packet arrives.
pub mod Arrival
use mathlib.Core.Path.{subst}
use raspberrypimodules.Prelude.{
  ℕ, zero, suc, ◌+◌, ◌≤◌, ◌<◌, ◌≡◌, refl, sym, ◌∙◌, ap, Bool, true, false, not, ◌&&◌, ◌||◌, List,
  [], ◌∷◌, Option, some, inl, inr, arith, Bool-cases, List-cases, length, take, take-memcpy, memcpy,
  is_nil, ltb, le→ltb, ltb→lt, lt→ltb, ◌==◌, if◌then◌else◌,
}
use raspberrypimodules.Snull.Types.{
  DevId, sn0, sn1, Packet, Skb, Stats, Priv, World, Env, Call, twin, priv, net, eth_data_len,
}
use raspberrypimodules.Snull.Pool.{get_tx_buffer, enqueue_buf, release_buffer, release_to}
use raspberrypimodules.Snull.Receive.{rx, count_received, count_dropped}
use raspberrypimodules.Snull.Interrupt.{
  interrupt, regular_interrupt, serve, finish, tx_done, release_taken, take_rx, count_sent,
}
use raspberrypimodules.Snull.Transmit.{
  rewrite_frame, fill, signal_rx, signal_tx, hw_tx, pad, tx, locks_up,
}
use raspberrypimodules.Snull.Inv.{Inv, Owned}
use raspberrypimodules.Snull.Inv.Transmit.{length-rewrite_frame}
use raspberrypimodules.Snull.Returns
use raspberrypimodules.Snull.Returns.{Returns, returns}

-- The statistics of the receiver, where the buffer for the packet was got or not.
abbrev pub counted : Bool → ℕ → Stats → Stats
counted true len s = count_received len s
counted false len s = count_dropped s

-- The calls of the kernel, with the frame handed to the upper levels if the buffer was got.
abbrev pub passed : Bool → DevId → List ℕ → List Call → List Call
passed true d frame calls = Call.netif_rx d frame ∷ calls
passed false d frame calls = calls

-- What there is to see of a transmission by `d`: its pool, the queue of the twin, the statistics of
-- both, the status words, the allocations, the calls, and whether its transmit queue is stopped. Both
-- locks are free, and the twin's receive interrupts are enabled.
pub record Shows (d : DevId) (pool queue : List Packet) (mine its : Stats)
    (status status' allocs : ℕ) (skb : Option ℕ) (calls : List Call) (stopped : Bool) (w : World)
    : Type 0 where
  pub lock : (priv w d).locked ≡ false
  pub lock' : (priv w (twin d)).locked ≡ false
  pub ints' : (priv w (twin d)).rx_int_enabled ≡ true
  pub at_pool : (priv w d).ppool ≡ pool
  pub at_queue : (priv w (twin d)).rx_queue ≡ queue
  pub at_mine : (priv w d).stats ≡ mine
  pub at_its : (priv w (twin d)).stats ≡ its
  pub at_status : (priv w d).status ≡ status
  pub at_status' : (priv w (twin d)).status ≡ status'
  pub at_allocs : w.allocs ≡ allocs
  pub at_skb : (priv w d).skb ≡ skb
  pub at_calls : w.calls ≡ calls
  pub at_stopped : (net w d).queue_stopped ≡ stopped

module _ {rest queue : List Packet} {mine its : Stats} {allocs : ℕ} {skb : Option ℕ}
    {calls : List Call} {w : World} where
  get_tx_buffer-Shows :
      (d : DevId) (pkt : Packet)
      → Shows d (pkt ∷ rest) queue mine its 0 0 allocs skb calls false w
      → Returns
          (λ p v. (p ≡ pkt) × Shows d rest queue mine its 0 0 allocs skb calls (is_nil rest) v)
          (get_tx_buffer d w)
  unfolding get_tx_buffer
  get_tx_buffer-Shows sn0 pkt s = elim (Bool-cases (is_nil rest)) [
    | inl e ↦ simp (s.lock, s.at_pool, e) (returns (refl, ground arith))
    | inr e ↦ simp (s.lock, s.at_pool, e) (returns (refl, ground arith))
  ]
  get_tx_buffer-Shows sn1 pkt s = elim (Bool-cases (is_nil rest)) [
    | inl e ↦ simp (s.lock, s.at_pool, e) (returns (refl, ground arith))
    | inr e ↦ simp (s.lock, s.at_pool, e) (returns (refl, ground arith))
  ]

  enqueue_buf-Shows :
      (d : DevId) (pkt : Packet) (stopped : Bool)
      → Shows d rest queue mine its 0 0 allocs skb calls stopped w
      → Returns
          (λ _. Shows d rest (pkt ∷ queue) mine its 0 0 allocs skb calls stopped)
          (enqueue_buf (twin d) pkt w)
  unfolding enqueue_buf
  enqueue_buf-Shows sn0 pkt stopped s = rw s.lock' (returns (ground arith))
  enqueue_buf-Shows sn1 pkt stopped s = rw s.lock' (returns (ground arith))

module _ (env : Env) (regular : env.use_napi ≡ false) {rest queue : List Packet} {mine its : Stats}
    {allocs : ℕ} {skb : Option ℕ} {calls : List Call} {w : World} where
  signal_rx-Shows :
      (d : DevId) (pkt : Packet) (got : Bool)
      → Shows d rest (pkt ∷ queue) mine its 0 0 allocs skb calls (is_nil rest) w
      → pkt.dev ≡ d
      → env.alloc_skb allocs (pkt.datalen + 2) ≡ got
      → Returns
          (λ _.
            Shows d
              (pkt ∷ rest)
              queue
              mine
              (counted got pkt.datalen its)
              0
              0
              (allocs + 1)
              skb
              (passed got (twin d) (take pkt.datalen pkt.bytes) calls)
              false)
          (signal_rx env (twin d) w)
  unfolding signal_rx interrupt regular_interrupt serve finish tx_done release_taken take_rx rx
      release_buffer release_to
  signal_rx-Shows sn0 pkt true s own alloc = elim (Bool-cases (is_nil rest)) [
    | inl e ↦
        simp
          (
            s.ints', s.lock', s.at_status', s.at_queue, s.at_allocs, regular, alloc, own, s.lock,
            s.at_stopped, s.at_pool, e,
          )
          (returns (ground arith))
    | inr e ↦
        simp
          (
            s.ints', s.lock', s.at_status', s.at_queue, s.at_allocs, regular, alloc, own, s.lock,
            s.at_stopped, s.at_pool, e,
          )
          (returns (ground arith))
  ]
  signal_rx-Shows sn0 pkt false s own alloc = elim (Bool-cases (is_nil rest)) [
    | inl e ↦
        simp
          (
            s.ints', s.lock', s.at_status', s.at_queue, s.at_allocs, regular, alloc, own, s.lock,
            s.at_stopped, s.at_pool, e,
          )
          (returns (ground arith))
    | inr e ↦
        simp
          (
            s.ints', s.lock', s.at_status', s.at_queue, s.at_allocs, regular, alloc, own, s.lock,
            s.at_stopped, s.at_pool, e,
          )
          (returns (ground arith))
  ]
  signal_rx-Shows sn1 pkt true s own alloc = elim (Bool-cases (is_nil rest)) [
    | inl e ↦
        simp
          (
            s.ints', s.lock', s.at_status', s.at_queue, s.at_allocs, regular, alloc, own, s.lock,
            s.at_stopped, s.at_pool, e,
          )
          (returns (ground arith))
    | inr e ↦
        simp
          (
            s.ints', s.lock', s.at_status', s.at_queue, s.at_allocs, regular, alloc, own, s.lock,
            s.at_stopped, s.at_pool, e,
          )
          (returns (ground arith))
  ]
  signal_rx-Shows sn1 pkt false s own alloc = elim (Bool-cases (is_nil rest)) [
    | inl e ↦
        simp
          (
            s.ints', s.lock', s.at_status', s.at_queue, s.at_allocs, regular, alloc, own, s.lock,
            s.at_stopped, s.at_pool, e,
          )
          (returns (ground arith))
    | inr e ↦
        simp
          (
            s.ints', s.lock', s.at_status', s.at_queue, s.at_allocs, regular, alloc, own, s.lock,
            s.at_stopped, s.at_pool, e,
          )
          (returns (ground arith))
  ]

  signal_tx-Shows :
      (d : DevId) (buf : List ℕ) (len : ℕ)
      → Shows d rest queue mine its 0 0 allocs skb calls false w
      → env.lockup ≡ 0
      → Returns
          (λ _.
            Shows d rest queue
              (count_sent len mine)
              its
              0
              0
              allocs
              skb
              (Call.dev_kfree_skb skb ∷ calls)
              false)
          (signal_tx env d buf len w)
  unfolding signal_tx interrupt regular_interrupt serve finish tx_done release_taken
  signal_tx-Shows sn0 buf len s off =
      simp (s.at_status, s.lock, regular, off) (returns (ground arith))
  signal_tx-Shows sn1 buf len s off =
      simp (s.at_status, s.lock, regular, off) (returns (ground arith))

module _ (env : Env) (regular : env.use_napi ≡ false) (off : env.lockup ≡ 0)
    {rest queue : List Packet} {mine its : Stats} {allocs : ℕ} {skb : Option ℕ} {calls : List Call}
    {w : World} where
  pub hw_tx-Shows :
      (d : DevId) (buf : List ℕ) (len : ℕ) (pkt : Packet) (got : Bool)
      → Shows d (pkt ∷ rest) queue mine its 0 0 allocs skb calls false w
      → pkt.dev ≡ d
      → env.alloc_skb allocs (len + 2) ≡ got
      → length buf ≡ len
      → 34 ≤ len
      → len ≤ eth_data_len
      → let sent = rewrite_frame env buf in
        let filled : Packet = record pkt { datalen = len; bytes = memcpy pkt.bytes sent len } in
        Returns
          (λ _.
            Shows d
              (filled ∷ rest)
              queue
              (count_sent len mine)
              (counted got len its)
              0
              0
              (allocs + 1)
              skb
              (Call.dev_kfree_skb skb ∷ passed got (twin d) sent calls)
              false)
          (hw_tx env buf len d w)
  unfolding hw_tx fill
  hw_tx-Shows d buf len pkt got s own alloc l low high =
      let sent = rewrite_frame env buf in
      let filled : Packet = record pkt { datalen = len; bytes = memcpy pkt.bytes sent len } in
      let copied : take len filled.bytes ≡ sent =
        take-memcpy pkt.bytes sent len (length-rewrite_frame env buf ∙ l) in
      rw (le→ltb len 34 low) (
        Returns.bind (get_tx_buffer-Shows d pkt s) λ p v1 (same, s1).
          rw (same, le→ltb eth_data_len len high)
            (Returns.bind (enqueue_buf-Shows d filled (is_nil rest) s1) λ _ v2 s2.
              Returns.bind (signal_rx-Shows env regular d filled got s2 own alloc) λ _ v3 s3.
                signal_tx-Shows env regular d sent len
                  (subst
                    (λ x.
                      Shows d (filled ∷ rest) queue mine (counted got len its) 0 0 (allocs + 1) skb
                        (passed got (twin d) x calls) false v3)
                    copied s3)
                  off))
