-- ===== src/Snull/Inv/Pool.antt =====
-- The pool and the queue keep the invariant: a packet that is out of both is missing from the count.
use mathlib.Core.Path.{subst}
use raspberrypimodules.Prelude.{
  ℕ, suc, ◌≡◌, sym, false, ◌&&◌, [], ◌∷◌, inl, inr, arith, is_nil, Bool-cases, List-cases,
}
use raspberrypimodules.Snull.Types.{DevId, sn0, sn1, Packet, Env, World, twin, net}
use raspberrypimodules.Snull.Pool.{get_tx_buffer, release_to, release_buffer, enqueue_buf}
use raspberrypimodules.Snull.Inv.{Owned, Flying, Inv}
use raspberrypimodules.Snull.Returns.{Returns, returns}

module _ (env : Env) {n k n' k' : ℕ} {w : World} where
  release_to-Inv :
      (d : DevId) (pkt : Packet)
      → Inv env d n k n' k' w
      → Owned d pkt
      → Returns (λ _. Inv env d (suc n) k n' k') (release_to d pkt w)
  unfolding release_to
  release_to-Inv sn0 pkt (s, t) o =
      rw s.lock (elim (Bool-cases (w.net0.queue_stopped && is_nil w.priv0.ppool)) [
        | inl e ↦ rw e (returns (ground arith))
        | inr e ↦ rw e (returns (ground arith))
      ])
  release_to-Inv sn1 pkt (s, t) o =
      rw s.lock (elim (Bool-cases (w.net1.queue_stopped && is_nil w.priv1.ppool)) [
        | inl e ↦ rw e (returns (ground arith))
        | inr e ↦ rw e (returns (ground arith))
      ])

  pub release_buffer-Inv :
      (d : DevId) (pkt : Packet)
      → Inv env d n k n' k' w
      → Owned d pkt
      → Returns (λ _. Inv env d (suc n) k n' k') (release_buffer pkt w)
  unfolding release_buffer
  release_buffer-Inv d pkt i o =
      subst (λ x. Returns (λ _. Inv env d (suc n) k n' k') (release_to x pkt w)) (sym o.0)
        (release_to-Inv d pkt i o)

  pub enqueue_buf-Inv :
      (d : DevId) (pkt : Packet)
      → Inv env d n k n' k' w
      → Flying d pkt
      → Returns (λ _. Inv env d (suc n) k n' (suc k')) (enqueue_buf (twin d) pkt w)
  unfolding enqueue_buf
  enqueue_buf-Inv sn0 pkt (s, t) f = rw t.lock (returns (ground arith))
  enqueue_buf-Inv sn1 pkt (s, t) f = rw t.lock (returns (ground arith))

module _ (env : Env) {n k n' k' : ℕ} {w : World} where
  pub get_tx_buffer-Inv :
      (d : DevId)
      → Inv env d (suc n) k n' k' w
      → (net w d).queue_stopped ≡ false
      → Returns (λ pkt v. Inv env d n k n' k' v × Owned d pkt) (get_tx_buffer d w)
  unfolding get_tx_buffer
  get_tx_buffer-Inv sn0 (s, t) open_ = rw s.lock (elim (List-cases w.priv0.ppool) [
    | inl e ↦ absurd (ground arith)
    | inr (pkt, [], e) ↦ rw e (returns (ground arith))
    | inr (pkt, x ∷ xs, e) ↦ rw e (returns (ground arith))
  ])
  get_tx_buffer-Inv sn1 (s, t) open_ = rw s.lock (elim (List-cases w.priv1.ppool) [
    | inl e ↦ absurd (ground arith)
    | inr (pkt, [], e) ↦ rw e (returns (ground arith))
    | inr (pkt, x ∷ xs, e) ↦ rw e (returns (ground arith))
  ])
