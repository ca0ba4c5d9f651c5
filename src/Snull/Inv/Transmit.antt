-- ===== src/Snull/Inv/Transmit.antt =====
-- Transmission keeps the invariant, and neither follows a null pointer nor leaves a packet.
use mathlib.Core.Path.{subst}
use raspberrypimodules.Prelude.{
  ℕ, zero, suc, ◌≤◌, ◌<◌, ◌≡◌, refl, sym, ◌∙◌, true, false, List, inl, inr, arith, Bool-cases,
  length, length-set, length-memcpy, length-append, length-replicate, replicate, is_nil, ltb,
  ltb→lt, bit_or, le→ltb, if◌then◌else◌, ◌-◌,
}
use raspberrypimodules.Snull.Types.{
  DevId, sn0, sn1, Packet, Skb, Env, World, twin, priv, net, eth_data_len,
}
use raspberrypimodules.Snull.Interrupt.{
  has_flag, interrupt, regular_interrupt, napi_interrupt, serve, finish, tx_done, release_taken,
}
use raspberrypimodules.Snull.Transmit.{
  swap_networks, rebuild_checksum, rewrite_frame, fill, signal_rx, signal_tx, hw_tx, pad, tx,
  tx_timeout, locks_up,
}
use raspberrypimodules.Snull.Inv.{Owned, Flying, Inv, Inv-swap, Inv-unswap}
use raspberrypimodules.Snull.Inv.Pool.{get_tx_buffer-Inv, enqueue_buf-Inv}
use raspberrypimodules.Snull.Inv.Interrupt.{interrupt-Inv}
use raspberrypimodules.Snull.Returns
use raspberrypimodules.Snull.Returns.{Returns, returns}

-- The status word with a flag set.
pub rx_flag : (s : ℕ) → s < 4 → (has_flag (bit_or s 1) 1 ≡ true) × (bit_or s 1 < 4)
rx_flag zero h = (refl, omega arith)
rx_flag (suc zero) h = (refl, omega arith)
rx_flag (suc (suc zero)) h = (refl, omega arith)
rx_flag (suc (suc (suc zero))) h = (refl, omega arith)
rx_flag (suc (suc (suc (suc s)))) h = absurd (omega arith)

pub tx_flag : (s : ℕ) → s < 4 → bit_or s 2 < 4
tx_flag zero h = omega arith
tx_flag (suc zero) h = omega arith
tx_flag (suc (suc zero)) h = omega arith
tx_flag (suc (suc (suc zero))) h = omega arith
tx_flag (suc (suc (suc (suc s)))) h = absurd (omega arith)

module _ (env : Env) where
  -- The rewritten frame has the length of the frame.
  pub length-rewrite_frame : (buf : List ℕ) → length (rewrite_frame env buf) ≡ length buf
  unfolding rewrite_frame rebuild_checksum swap_networks
  length-rewrite_frame buf = simp length-set

  pub fill-Flying :
      (d : DevId) (pkt : Packet) (buf : List ℕ) (len : ℕ) (w : World)
      → Owned d pkt
      → length buf ≡ len
      → len ≤ eth_data_len
      → Returns (λ filled v. (v ≡ w) × Flying d filled) (fill env pkt buf len w)
  unfolding fill
  fill-Flying d pkt buf len w (e, room) l le =
      rw (le→ltb eth_data_len len le)
        (returns (refl, (e, length-memcpy pkt.bytes buf len l (omega arith) ∙ room, le)))

module _ (env : Env) {n k n' k' : ℕ} {w : World} where
  signal_rx-Inv :
      (d : DevId)
      → Inv env d n (suc k) n' k' w
      → Returns (λ _. Inv env d n k n' k') (signal_rx env d w)
  unfolding signal_rx
  signal_rx-Inv sn0 (s, t) =
      let flag = rx_flag w.priv0.status s.status in
      elim (Bool-cases w.priv0.rx_int_enabled) [
        | inl e ↦ simp e (
            interrupt-Inv env {k = suc k} sn0 k (ground arith) (λ _. omega arith)
              (λ h. absurd (ground arith)))
        | inr e ↦ simp e (returns (ground arith))
      ]
  signal_rx-Inv sn1 (s, t) =
      let flag = rx_flag w.priv1.status s.status in
      elim (Bool-cases w.priv1.rx_int_enabled) [
        | inl e ↦ simp e (
            interrupt-Inv env {k = suc k} sn1 k (ground arith) (λ _. omega arith)
              (λ h. absurd (ground arith)))
        | inr e ↦ simp e (returns (ground arith))
      ]

  signal_tx-Inv :
      (d : DevId) (buf : List ℕ) (len : ℕ)
      → Inv env d n k n' k' w
      → Returns (λ _. Inv env d n k n' k') (signal_tx env d buf len w)
  unfolding signal_tx
  signal_tx-Inv sn0 buf len (s, t) =
      let flag = tx_flag w.priv0.status s.status in
      elim (Bool-cases (locks_up env w.priv0.stats)) [
        | inl e ↦ simp e (returns (ground arith))
        | inr e ↦
            simp e
              (interrupt-Inv env {k = k} sn0 k (ground arith) (λ _. omega arith) (λ _. omega arith))
      ]
  signal_tx-Inv sn1 buf len (s, t) =
      let flag = tx_flag w.priv1.status s.status in
      elim (Bool-cases (locks_up env w.priv1.stats)) [
        | inl e ↦ simp e (returns (ground arith))
        | inr e ↦
            simp e
              (interrupt-Inv env {k = k} sn1 k (ground arith) (λ _. omega arith) (λ _. omega arith))
      ]

module _ (env : Env) {n n' : ℕ} where
  hw_tx-Inv :
      {w : World} (d : DevId) (buf : List ℕ) (len : ℕ)
      → Inv env d (suc n) 0 n' 0 w
      → (net w d).queue_stopped ≡ false
      → length buf ≡ len
      → len ≤ eth_data_len
      → Returns (λ _. Inv env d (suc n) 0 n' 0) (hw_tx env buf len d w)
  unfolding hw_tx
  hw_tx-Inv d buf len i awake l le = elim (Bool-cases (ltb len 34)) [
    | inl e ↦ rw e (returns i)
    | inr e ↦ rw e (
        Returns.bind (get_tx_buffer-Inv env d i awake) λ pkt v (i1, o).
          Returns.bind
            (fill-Flying env d pkt (rewrite_frame env buf) len v o
              (length-rewrite_frame env buf ∙ l) le)
            λ filled v2 (same, f).
              Returns.bind
                (enqueue_buf-Inv env d filled (subst (Inv env d n 0 n' 0) (sym same) i1) f)
                λ _ v3 i3.
                  Returns.bind (signal_rx-Inv env (twin d) (Inv-swap d i3))
                    λ _ v4 i4. signal_tx-Inv env d (rewrite_frame env buf) len (Inv-unswap d i4))
  ]

-- The padded frame is as long as `snull_tx` says.
pub length-pad :
    (bytes : List ℕ) → length (pad bytes) ≡ (if ltb (length bytes) 60 then 60 else length bytes)
unfolding pad
length-pad bytes = elim (Bool-cases (ltb (length bytes) 60)) [
  | inl e ↦ rw e (
      omega (
        arith,
        ltb→lt _ _ e,
        length-append bytes (replicate (60 - length bytes) 0),
        length-replicate {A = ℕ} (60 - length bytes) 0,
      ))
  | inr e ↦ rw e refl
]

module _ (env : Env) {n n' : ℕ} where
  -- `snull_tx` on a queue that is awake returns 0 and keeps the invariant, for a frame of at most
  -- ETH_DATA_LEN bytes.
  pub tx-Inv :
      {w : World} (d : DevId) (skb : Skb)
      → Inv env d (suc n) 0 n' 0 w
      → (net w d).queue_stopped ≡ false
      → length skb.bytes ≤ eth_data_len
      → Returns (λ r v. (r ≡ 0) × Inv env d (suc n) 0 n' 0 v) (tx env skb d w)
  unfolding tx
  tx-Inv sn0 skb (s, t) awake le =
      Returns.bind
        (hw_tx-Inv env sn0 (pad skb.bytes) _ (ground arith) awake (length-pad skb.bytes)
          (ground arith))
        λ _ v i. returns (refl, i)
  tx-Inv sn1 skb (s, t) awake le =
      Returns.bind
        (hw_tx-Inv env sn1 (pad skb.bytes) _ (ground arith) awake (length-pad skb.bytes)
          (ground arith))
        λ _ v i. returns (refl, i)

  -- `snull_tx_timeout` with a packet in the pool.
  pub tx_timeout-Inv :
      {w : World} (d : DevId)
      → Inv env d n 0 n' 0 w
      → is_nil (priv w d).ppool ≡ false
      → Returns (λ _. Inv env d n 0 n' 0) (tx_timeout env d w)
  unfolding tx_timeout interrupt regular_interrupt napi_interrupt serve finish tx_done release_taken
  tx_timeout-Inv {w} sn0 (s, t) full = elim (Bool-cases env.use_napi) [
    | inl e ↦ simp (e, s.lock) (returns (ground arith))
    | inr e ↦ simp (e, s.lock) (returns (ground arith))
  ]
  tx_timeout-Inv {w} sn1 (s, t) full = elim (Bool-cases env.use_napi) [
    | inl e ↦ simp (e, s.lock) (returns (ground arith))
    | inr e ↦ simp (e, s.lock) (returns (ground arith))
  ]
