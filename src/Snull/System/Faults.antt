-- ===== src/Snull/System/Faults.antt =====
-- Where the driver faults.
use raspberrypimodules.Prelude.{
  ℕ, ◌≤◌, ◌<◌, ◌≡◌, refl, false, [], ◌∷◌, some, inl, inr, arith, Bool-cases, List-cases, length,
  is_nil, ltb, le→ltb, lt→ltb, List, if◌then◌else◌,
}
use raspberrypimodules.Snull.Returns
use raspberrypimodules.Snull.Returns.{Returns}
use raspberrypimodules.Snull.Types.{
  DevId, sn0, sn1, Packet, Skb, World, Env, priv, net, eth_data_len,
}
use raspberrypimodules.Snull.Monad.{fault, Fault, ◌>>◌}
use raspberrypimodules.Snull.Pool.{get_tx_buffer}
use raspberrypimodules.Snull.Interrupt.{
  interrupt, regular_interrupt, napi_interrupt, serve, finish, tx_done, release_taken,
}
use raspberrypimodules.Snull.Transmit.{fill, hw_tx, pad, tx, tx_timeout}
use raspberrypimodules.Snull.Config.{open_dev}
use raspberrypimodules.Snull.Inv.{Inv}

frame_long : (bytes : List ℕ) → 34 ≤ (if ltb (length bytes) 60 then 60 else length bytes)
frame_long bytes = ground arith

stays_long :
    (bytes : List ℕ)
    → eth_data_len < length bytes
    → eth_data_len < (if ltb (length bytes) 60 then 60 else length bytes)
stays_long bytes h = ground arith

module _ (env : Env) where
  hw_tx-empty :
      (w : World) (d : DevId) (buf : List ℕ) (len : ℕ)
      → 34 ≤ len
      → (priv w d).locked ≡ false
      → (priv w d).ppool ≡ []
      → hw_tx env buf len d w ≡ fault Fault.null_deref
  unfolding hw_tx get_tx_buffer
  hw_tx-empty w sn0 buf len low lock e = rw (le→ltb len 34 low, lock) (rw e refl)
  hw_tx-empty w sn1 buf len low lock e = rw (le→ltb len 34 low, lock) (rw e refl)

  hw_tx-long :
      (w : World) (d : DevId) (buf : List ℕ) (len : ℕ)
      → eth_data_len < len
      → (priv w d).locked ≡ false
      → (pkt : Packet) (rest : List Packet) → (priv w d).ppool ≡ pkt ∷ rest
      → hw_tx env buf len d w ≡ fault Fault.overflow
  unfolding hw_tx get_tx_buffer fill
  hw_tx-long w sn0 buf len long lock pkt rest e = elim (Bool-cases (is_nil rest)) [
    | inl c ↦ rw (le→ltb len 34 (omega arith), lock) (rw (e, c, lt→ltb eth_data_len len long) refl)
    | inr c ↦ rw (le→ltb len 34 (omega arith), lock) (rw (e, c, lt→ltb eth_data_len len long) refl)
  ]
  hw_tx-long w sn1 buf len long lock pkt rest e = elim (Bool-cases (is_nil rest)) [
    | inl c ↦ rw (le→ltb len 34 (omega arith), lock) (rw (e, c, lt→ltb eth_data_len len long) refl)
    | inr c ↦ rw (le→ltb len 34 (omega arith), lock) (rw (e, c, lt→ltb eth_data_len len long) refl)
  ]

module _ (env : Env) where
  -- On an empty pool `snull_tx` follows a null pointer, whatever the frame.
  pub tx-empty :
      (w : World) (d : DevId) (skb : Skb)
      → (priv w d).locked ≡ false
      → (priv w d).ppool ≡ []
      → tx env skb d w ≡ fault Fault.null_deref
  unfolding tx
  tx-empty w sn0 skb lock e =
      let u : World = record w { priv0 = record (w.priv0) { skb = some skb.id } } in
      rw (hw_tx-empty env u sn0 (pad skb.bytes) _ (frame_long skb.bytes) lock e)
  tx-empty w sn1 skb lock e =
      let u : World = record w { priv1 = record (w.priv1) { skb = some skb.id } } in
      rw (hw_tx-empty env u sn1 (pad skb.bytes) _ (frame_long skb.bytes) lock e)

  -- On a queue that is awake, with the invariant, a frame of more than ETH_DATA_LEN bytes is written
  -- past the end of the packet.
  pub tx-long :
      (w : World) (d : DevId) (skb : Skb) {n n' : ℕ}
      → Inv env d n 0 n' 0 w
      → (net w d).queue_stopped ≡ false
      → eth_data_len < length skb.bytes
      → tx env skb d w ≡ fault Fault.overflow
  unfolding tx
  tx-long w sn0 skb (s, t) awake long = elim (List-cases w.priv0.ppool) [
    | inl e ↦ absurd (ground arith)
    | inr (pkt, rest, e) ↦
        let u : World = record w { priv0 = record (w.priv0) { skb = some skb.id } } in
        rw (hw_tx-long env u sn0 (pad skb.bytes) _ (stays_long skb.bytes long) s.lock pkt rest e)
  ]
  tx-long w sn1 skb (s, t) awake long = elim (List-cases w.priv1.ppool) [
    | inl e ↦ absurd (ground arith)
    | inr (pkt, rest, e) ↦
        let u : World = record w { priv1 = record (w.priv1) { skb = some skb.id } } in
        rw (hw_tx-long env u sn1 (pad skb.bytes) _ (stays_long skb.bytes long) s.lock pkt rest e)
  ]

module _ (env : Env) where
  -- With the invariant, a transmit timeout on an empty pool returns and wakes the queue, and the
  -- transmission that the kernel may then ask for follows a null pointer.
  pub tx_timeout-tx :
      (w : World) (d : DevId) (skb : Skb) {n n' : ℕ}
      → Inv env d n 0 n' 0 w
      → (priv w d).ppool ≡ []
      → (tx_timeout env d >> tx env skb d) w ≡ fault Fault.null_deref
  unfolding tx_timeout interrupt regular_interrupt napi_interrupt serve finish tx_done release_taken
  tx_timeout-tx w sn0 skb (s, t) e = elim (Bool-cases env.use_napi) [
    | inl c ↦ simp (c, s.lock) (tx-empty env _ sn0 skb refl e)
    | inr c ↦ simp (c, s.lock) (tx-empty env _ sn0 skb refl e)
  ]
  tx_timeout-tx w sn1 skb (s, t) e = elim (Bool-cases env.use_napi) [
    | inl c ↦ simp (c, s.lock) (tx-empty env _ sn1 skb refl e)
    | inr c ↦ simp (c, s.lock) (tx-empty env _ sn1 skb refl e)
  ]

  -- So does one that an open on an empty pool lets through.
  pub open_dev-tx :
      (w : World) (d : DevId) (skb : Skb)
      → (priv w d).locked ≡ false
      → (priv w d).ppool ≡ []
      → (open_dev d >> tx env skb d) w ≡ fault Fault.null_deref
  unfolding open_dev
  open_dev-tx w sn0 skb lock e = tx-empty env _ sn0 skb lock e
  open_dev-tx w sn1 skb lock e = tx-empty env _ sn1 skb lock e
