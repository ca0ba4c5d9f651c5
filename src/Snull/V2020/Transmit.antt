-- ===== src/Snull/V2020/Transmit.antt =====
-- snull/snull_3dec2020.c: a transmission keeps the invariant.
use mathlib.Core.Path.{subst}
use raspberrypimodules.Prelude.{
  ℕ, suc, ◌≤◌, ◌≡◌, refl, sym, ◌∙◌, false, List, [], ◌∷◌, some, inl, inr, arith, Bool-cases,
  List-cases, length, ltb,
}
use raspberrypimodules.Snull.Types.{
  DevId, sn0, sn1, Packet, Skb, Env, World, twin, net, eth_data_len,
}
use raspberrypimodules.Snull.Transmit.{rewrite_frame, pad, locks_up}
use raspberrypimodules.Snull.Inv.{Owned, Inv, Inv-swap, Inv-unswap}
use raspberrypimodules.Snull.Inv.Pool.{enqueue_buf-Inv}
use raspberrypimodules.Snull.Inv.Transmit.{
  rx_flag, tx_flag, length-rewrite_frame, fill-Flying, length-pad,
}
use raspberrypimodules.Snull.Returns
use raspberrypimodules.Snull.Returns.{Returns, returns}
use raspberrypimodules.Snull.V2020.{
  get_tx_buffer_2020, signal_rx_2020, signal_tx_2020, send_buffer, hw_tx_2020, tx_2020,
}
use raspberrypimodules.Snull.V2020.Interrupt.{interrupt_2020-Inv}

module _ (env : Env) {n k n' k' : ℕ} {w : World} where
  get_tx_buffer_2020-Inv :
      (d : DevId)
      → Inv env d (suc n) k n' k' w
      → (net w d).queue_stopped ≡ false
      → Returns
          (λ o v. (pkt : Packet) × (o ≡ some pkt) × Inv env d n k n' k' v × Owned d pkt)
          (get_tx_buffer_2020 d w)
  unfolding get_tx_buffer_2020
  get_tx_buffer_2020-Inv sn0 (s, t) open_ = rw s.lock (elim (List-cases w.priv0.ppool) [
    | inl e ↦ absurd (ground arith)
    | inr (pkt, [], e) ↦ rw e (returns (pkt, refl, ground arith, ground arith))
    | inr (pkt, x ∷ xs, e) ↦ rw e (returns (pkt, refl, ground arith, ground arith))
  ])
  get_tx_buffer_2020-Inv sn1 (s, t) open_ = rw s.lock (elim (List-cases w.priv1.ppool) [
    | inl e ↦ absurd (ground arith)
    | inr (pkt, [], e) ↦ rw e (returns (pkt, refl, ground arith, ground arith))
    | inr (pkt, x ∷ xs, e) ↦ rw e (returns (pkt, refl, ground arith, ground arith))
  ])

  signal_rx_2020-Inv :
      (d : DevId)
      → Inv env d n (suc k) n' k' w
      → Returns (λ _. Inv env d n k n' k') (signal_rx_2020 env d w)
  unfolding signal_rx_2020
  signal_rx_2020-Inv sn0 (s, t) =
      let flag = rx_flag w.priv0.status s.status in
      elim (Bool-cases w.priv0.rx_int_enabled) [
        | inl e ↦ simp e (
            interrupt_2020-Inv env {k = suc k} sn0 k (ground arith) (λ _. omega arith)
              (λ h. absurd (ground arith)))
        | inr e ↦ simp e (returns (ground arith))
      ]
  signal_rx_2020-Inv sn1 (s, t) =
      let flag = rx_flag w.priv1.status s.status in
      elim (Bool-cases w.priv1.rx_int_enabled) [
        | inl e ↦ simp e (
            interrupt_2020-Inv env {k = suc k} sn1 k (ground arith) (λ _. omega arith)
              (λ h. absurd (ground arith)))
        | inr e ↦ simp e (returns (ground arith))
      ]

  signal_tx_2020-Inv :
      (d : DevId) (buf : List ℕ) (len : ℕ)
      → Inv env d n k n' k' w
      → Returns (λ _. Inv env d n k n' k') (signal_tx_2020 env d buf len w)
  unfolding signal_tx_2020
  signal_tx_2020-Inv sn0 buf len (s, t) =
      let flag = tx_flag w.priv0.status s.status in
      elim (Bool-cases (locks_up env w.priv0.stats)) [
        | inl e ↦ simp e (returns (ground arith))
        | inr e ↦ simp e (
            interrupt_2020-Inv env {k = k} sn0 k (ground arith) (λ _. omega arith)
              (λ _. omega arith))
      ]
  signal_tx_2020-Inv sn1 buf len (s, t) =
      let flag = tx_flag w.priv1.status s.status in
      elim (Bool-cases (locks_up env w.priv1.stats)) [
        | inl e ↦ simp e (returns (ground arith))
        | inr e ↦ simp e (
            interrupt_2020-Inv env {k = k} sn1 k (ground arith) (λ _. omega arith)
              (λ _. omega arith))
      ]

module _ (env : Env) {n n' : ℕ} where
  hw_tx_2020-Inv :
      {w : World} (d : DevId) (buf : List ℕ) (len : ℕ)
      → Inv env d (suc n) 0 n' 0 w
      → (net w d).queue_stopped ≡ false
      → length buf ≡ len
      → len ≤ eth_data_len
      → Returns (λ _. Inv env d (suc n) 0 n' 0) (hw_tx_2020 env buf len d w)
  unfolding hw_tx_2020 send_buffer
  hw_tx_2020-Inv d buf len i awake l le = elim (Bool-cases (ltb len 34)) [
    | inl e ↦ rw e (returns i)
    | inr e ↦ rw e (
        Returns.bind (get_tx_buffer_2020-Inv env d i awake) λ o v (pkt, got, i1, ow). rw got (
          Returns.bind
            (fill-Flying env d pkt (rewrite_frame env buf) len v ow
              (length-rewrite_frame env buf ∙ l) le)
            λ filled v2 (same, f).
              Returns.bind
                (enqueue_buf-Inv env d filled (subst (Inv env d n 0 n' 0) (sym same) i1) f)
                λ _ v3 i3. Returns.bind (signal_rx_2020-Inv env (twin d) (Inv-swap d i3)) λ _ v4 i4.
                  signal_tx_2020-Inv env d (rewrite_frame env buf) len (Inv-unswap d i4)))
  ]

  -- `snull_tx` on a queue that is awake returns 0 and keeps the invariant, for a frame of at most
  -- ETH_DATA_LEN bytes.
  pub tx_2020-Inv :
      {w : World} (d : DevId) (skb : Skb)
      → Inv env d (suc n) 0 n' 0 w
      → (net w d).queue_stopped ≡ false
      → length skb.bytes ≤ eth_data_len
      → Returns (λ r v. (r ≡ 0) × Inv env d (suc n) 0 n' 0 v) (tx_2020 env skb d w)
  unfolding tx_2020
  tx_2020-Inv sn0 skb (s, t) awake le =
      Returns.bind
        (hw_tx_2020-Inv sn0 (pad skb.bytes) _ (ground arith) awake (length-pad skb.bytes)
          (ground arith))
        λ _ v i. returns (refl, i)
  tx_2020-Inv sn1 skb (s, t) awake le =
      Returns.bind
        (hw_tx_2020-Inv sn1 (pad skb.bytes) _ (ground arith) awake (length-pad skb.bytes)
          (ground arith))
        λ _ v i. returns (refl, i)
