-- ===== src/Snull/Deliver/Arrival.antt =====
-- `snull_tx` with regular interrupts, as one step.
use mathlib.Core.Path.{subst}
use raspberrypimodules.Prelude.{
  sym, ap, ◌∙◌, ℕ, suc, ◌+◌, ◌≤◌, ◌≡◌, refl, Bool, false, List, ◌∷◌, some, inl, inr, arith,
  List-cases, length,
}
use raspberrypimodules.Snull.Types.{
  DevId, sn0, sn1, Packet, Skb, World, Env, Call, twin, priv, net, set_priv, eth_data_len,
}
use raspberrypimodules.Snull.Interrupt.{count_sent}
use raspberrypimodules.Snull.Transmit.{rewrite_frame, pad, tx}
use raspberrypimodules.Snull.Inv.{Inv, All, Owned}
use raspberrypimodules.Snull.Inv.Transmit.{length-pad}
use raspberrypimodules.Snull.Deliver.{counted, passed, Shows, hw_tx-Shows}
use raspberrypimodules.Snull.Returns
use raspberrypimodules.Snull.Returns.{Returns, returns}

-- Regular interrupts, no lockups, and no interrupt that waits.
pub record Quiet (env : Env) (w : World) : Type 0 where
  pub regular : env.use_napi ≡ false
  pub no_lockup : env.lockup ≡ 0
  pub none_waits : (d : DevId) → (priv w d).status ≡ 0

-- What is seen of a transmission of `skb` by `d` from `w`, where the buffer of the receiver was got
-- or not.
pub record Delivered (env : Env) (d : DevId) (skb : Skb) (got : Bool) (w v : World) : Type 0 where
  pub calls :
      v.calls
      ≡ Call.dev_kfree_skb (some skb.id)
        ∷ passed got (twin d) (rewrite_frame env (pad skb.bytes)) w.calls
  pub sent : (priv v d).stats ≡ count_sent (length (pad skb.bytes)) (priv w d).stats
  pub received :
      (priv v (twin d)).stats ≡ counted got (length (pad skb.bytes)) (priv w (twin d)).stats
  pub queue : (priv v (twin d)).rx_queue ≡ (priv w (twin d)).rx_queue
  pub pool : length (priv v d).ppool ≡ length (priv w d).ppool
  pub quiet : Quiet env v
  pub awake : (net v d).queue_stopped ≡ false

both : (P : DevId → Type 0) (d : DevId) → P d → P (twin d) → (e : DevId) → P e
both P sn0 p q sn0 = p
both P sn0 p q sn1 = q
both P sn1 p q sn0 = q
both P sn1 p q sn1 = p

end-Delivered :
    (env : Env) {w v : World} {pkt filled : Packet} {rest : List Packet} {allocs : ℕ} (d : DevId)
    (skb : Skb) (got : Bool)
    → Quiet env w
    → (priv w d).ppool ≡ pkt ∷ rest
    → Shows d
        (filled ∷ rest)
        (priv w (twin d)).rx_queue
        (count_sent (length (pad skb.bytes)) (priv w d).stats)
        (counted got (length (pad skb.bytes)) (priv w (twin d)).stats)
        0
        0
        allocs
        (some skb.id)
        (Call.dev_kfree_skb (some skb.id)
          ∷ passed got (twin d) (rewrite_frame env (pad skb.bytes)) w.calls)
        false
        v
    → Delivered env d skb got w v
end-Delivered env {v} d skb got q e s = record {
  calls = s.at_calls;
  sent = s.at_mine;
  received = s.at_its;
  queue = s.at_queue;
  pool = ap length s.at_pool ∙ ap length (sym e);
  quiet = record {
    regular = q.regular;
    no_lockup = q.no_lockup;
    none_waits = both (λ x. (priv v x).status ≡ 0) d s.at_status s.at_status';
  };
  awake = s.at_stopped;
}

owned :
    {d : DevId} {pkt : Packet} {pool rest : List Packet}
    → pool ≡ pkt ∷ rest
    → All (Owned d) pool
    → pkt.dev ≡ d
owned {d} e h = (subst (All (Owned d)) e h).0.0

long_enough : (bytes : List ℕ) → 34 ≤ length (pad bytes)
long_enough bytes = ground (arith, length-pad bytes)

short_enough : (bytes : List ℕ) → length bytes ≤ eth_data_len → length (pad bytes) ≤ eth_data_len
short_enough bytes h = ground (arith, length-pad bytes)

module _ (env : Env) {n n' : ℕ} {w : World} where
  -- The world as `snull_hw_tx` finds it.
  start-Shows :
      (d : DevId) (id : ℕ) (pkt : Packet) (rest : List Packet)
      → Inv env d (suc n) 0 n' 0 w
      → Quiet env w
      → (net w d).queue_stopped ≡ false
      → (priv w d).ppool ≡ pkt ∷ rest
      → Shows d
          (pkt ∷ rest)
          (priv w (twin d)).rx_queue
          (priv w d).stats
          (priv w (twin d)).stats
          0
          0
          w.allocs
          (some id)
          w.calls
          false
          (set_priv d (record (priv w d) { skb = some id }) w)
  start-Shows sn0 id pkt rest (s, t) q awake e =
      let on = t.enabled q.regular in
      let a = q.none_waits sn0 in let b = q.none_waits sn1 in ground arith
  start-Shows sn1 id pkt rest (s, t) q awake e =
      let on = t.enabled q.regular in
      let a = q.none_waits sn0 in let b = q.none_waits sn1 in ground arith

  -- With regular interrupts and no lockup simulated, on a queue that is awake, `snull_tx` of a frame
  -- of at most ETH_DATA_LEN bytes returns 0, hands the twin's upper levels exactly the padded and
  -- rewritten frame (or drops it where no buffer is got), frees the socket buffer once, counts both,
  -- and leaves the queue of the twin, the size of the pool and the transmit queue as they were.
  pub tx-Delivered :
      (d : DevId) (skb : Skb) (got : Bool)
      → Inv env d (suc n) 0 n' 0 w
      → Quiet env w
      → (net w d).queue_stopped ≡ false
      → length skb.bytes ≤ eth_data_len
      → env.alloc_skb w.allocs (length (pad skb.bytes) + 2) ≡ got
      → Returns (λ r v. (r ≡ 0) × Delivered env d skb got w v) (tx env skb d w)
  unfolding tx
  tx-Delivered d skb got (s, t) q awake le alloc = elim (List-cases (priv w d).ppool) [
    | inl e ↦ absurd (cc (sym (s.awake (rw e refl)) ∙ awake))
    | inr (pkt, rest, e) ↦ rw (← length-pad skb.bytes) (
        Returns.bind
          (hw_tx-Shows env q.regular q.no_lockup d (pad skb.bytes) (length (pad skb.bytes)) pkt got
            (start-Shows d skb.id pkt rest (s, t) q awake e) (owned e s.pool) alloc refl
            (long_enough skb.bytes) (short_enough skb.bytes le))
          λ _ v h. returns (refl, end-Delivered env d skb got q e h))
  ]
