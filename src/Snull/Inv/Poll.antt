-- ===== src/Snull/Inv/Poll.antt =====
-- One round of the NAPI poll keeps the invariant.
use mathlib.Core.Path.{subst}
use raspberrypimodules.Prelude.{
  ℕ, suc, ◌+◌, ◌≡◌, refl, ◌&&◌, not, true, false, some, inl, inr, arith, Bool-cases, List-cases,
  length, is_nil, sym, Bool,
}
use raspberrypimodules.Snull.Types.{DevId, sn0, sn1, Packet, Env, World, twin, priv}
use raspberrypimodules.Snull.Pool.{dequeue_buf, release_to, release_buffer}
use raspberrypimodules.Snull.Receive.{poll_packet}
use raspberrypimodules.Snull.Inv.{Owned, Inv}
use raspberrypimodules.Snull.Returns
use raspberrypimodules.Snull.Returns.{Returns, returns}

-- The receive queue of `d` holds `q` packets, and the device of the poll is recorded.
abbrev pub Queued : DevId → ℕ → World → Type 0
Queued d q w = (length (priv w d).rx_queue ≡ q) × ((priv w d).dev ≡ some d)

module _ (env : Env) {n k n' k' : ℕ} {w : World} where
  release_to-Polled :
      (d : DevId) (pkt : Packet) (q : ℕ)
      → Inv env d n k n' k' w
      → Owned (twin d) pkt
      → Queued d q w
      → Returns (λ _ v. Inv env d n k (suc n') k' v × Queued d q v) (release_to (twin d) pkt w)
  unfolding release_to
  release_to-Polled sn0 pkt q (s, t) ow e =
      rw t.lock (elim (Bool-cases (w.net1.queue_stopped && is_nil w.priv1.ppool)) [
        | inl c ↦ rw c (returns (ground arith))
        | inr c ↦ rw c (returns (ground arith))
      ])
  release_to-Polled sn1 pkt q (s, t) ow e =
      rw t.lock (elim (Bool-cases (w.net0.queue_stopped && is_nil w.priv0.ppool)) [
        | inl c ↦ rw c (returns (ground arith))
        | inr c ↦ rw c (returns (ground arith))
      ])

  pub release-Polled :
      (d : DevId) (pkt : Packet) (q : ℕ)
      → Inv env d n k n' k' w
      → Owned (twin d) pkt
      → Queued d q w
      → Returns (λ _ v. Inv env d n k (suc n') k' v × Queued d q v) (release_buffer pkt w)
  unfolding release_buffer
  release-Polled d pkt q i o e =
      subst (λ x. Returns (λ _ v. Inv env d n k (suc n') k' v × Queued d q v) (release_to x pkt w))
        (sym o.0) (release_to-Polled d pkt q i o e)

  pub dequeue-Polled :
      (d : DevId) (q : ℕ)
      → Inv env d n k (suc n') k' w
      → Queued d (suc q) w
      → Returns
          (λ o v.
            (pkt : Packet) × (o ≡ some pkt)
            × Owned (twin d) pkt
            × Inv env d n k n' k' v
            × Queued d q v)
          (dequeue_buf d w)
  unfolding dequeue_buf
  dequeue-Polled sn0 q (s, t) e = rw s.lock (elim (List-cases w.priv0.rx_queue) [
    | inl nil ↦ absurd (ground arith)
    | inr (pkt, xs, c) ↦ rw c (returns (pkt, refl, ground arith, ground arith, ground arith))
  ])
  dequeue-Polled sn1 q (s, t) e = rw s.lock (elim (List-cases w.priv1.rx_queue) [
    | inl nil ↦ absurd (ground arith)
    | inr (pkt, xs, c) ↦ rw c (returns (pkt, refl, ground arith, ground arith, ground arith))
  ])

module _ (env : Env) {n k n' k' : ℕ} where
  pub poll_packet-Polled :
      {w : World} (d : DevId) (pkt : Packet) (q : ℕ)
      → Inv env d n k n' k' w
      → Owned (twin d) pkt
      → Queued d q w
      → Returns (λ _ v. Inv env d n k (suc n') k' v × Queued d q v) (poll_packet env d d pkt w)
  unfolding poll_packet
  poll_packet-Polled {w} sn0 pkt q (s, t) ow e =
      let next = λ (b : Bool) (v : World) (i : Inv env sn0 n k n' k' v) (h : Queued sn0 q v).
        Returns.bind {Q = λ (x : Bool) (u : World). Inv env sn0 n k (suc n') k' u × Queued sn0 q u}
          (release-Polled env sn0 pkt q i ow h) (λ _ u p. returns {a = b} p) in
      elim (Bool-cases (env.alloc_skb w.allocs (pkt.datalen + 2))) [
        | inl c ↦ rw c (next true _ (ground arith) (ground arith))
        | inr c ↦ rw c (next false _ (ground arith) (ground arith))
      ]
  poll_packet-Polled {w} sn1 pkt q (s, t) ow e =
      let next = λ (b : Bool) (v : World) (i : Inv env sn1 n k n' k' v) (h : Queued sn1 q v).
        Returns.bind {Q = λ (x : Bool) (u : World). Inv env sn1 n k (suc n') k' u × Queued sn1 q u}
          (release-Polled env sn1 pkt q i ow h) (λ _ u p. returns {a = b} p) in
      elim (Bool-cases (env.alloc_skb w.allocs (pkt.datalen + 2))) [
        | inl c ↦ rw c (next true _ (ground arith) (ground arith))
        | inr c ↦ rw c (next false _ (ground arith) (ground arith))
      ]

pub queue_empty : (w : World) (d : DevId) → Queued d 0 w → not (is_nil (priv w d).rx_queue) ≡ false
queue_empty w d e = elim (List-cases (priv w d).rx_queue) [
  | inl c ↦ ground arith
  | inr (x, xs, c) ↦ ground arith
]

pub queue_more :
    (w : World) (d : DevId) (q : ℕ) → Queued d (suc q) w → not (is_nil (priv w d).rx_queue) ≡ true
queue_more w d q e = elim (List-cases (priv w d).rx_queue) [
  | inl c ↦ ground arith
  | inr (x, xs, c) ↦ ground arith
]

module _ (env : Env) {n k k' : ℕ} where
  -- A packet in the queue is one of the twin's.
  pub twin_count : {w : World} (d : DevId) (q : ℕ) → Inv env d n k 0 k' w → Queued d (suc q) w → ⊥
  twin_count sn0 q (s, t) e = omega arith
  twin_count sn1 q (s, t) e = omega arith
