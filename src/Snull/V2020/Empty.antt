-- ===== src/Snull/V2020/Empty.antt =====
-- snull/snull_3dec2020.c on an empty pool.
use raspberrypimodules.Prelude.{
  ℕ, ◌≤◌, ◌≡◌, refl, inl, inr, false, true, List, [], ◌∷◌, some, arith, Bool-cases, length, ltb,
  le→ltb, if◌then◌else◌,
}
use raspberrypimodules.Snull.Types.{DevId, sn0, sn1, Skb, World, Env, Call, priv, set_priv}
use raspberrypimodules.Snull.Monad.{ok, fault, Fault}
use raspberrypimodules.Snull.Interrupt.{regular_interrupt, serve}
use raspberrypimodules.Snull.Transmit.{pad}
use raspberrypimodules.Snull.V2020.{
  get_tx_buffer_2020, napi_interrupt_2020, interrupt_2020, send_buffer, hw_tx_2020, tx_2020,
}

frame_length : (bytes : List ℕ) → 34 ≤ (if ltb (length bytes) 60 then 60 else length bytes)
frame_length bytes = ground arith

-- The lock is held behind the transmission of a socket buffer.
abbrev stuck : DevId → Skb → World → World
stuck d skb w =
    set_priv d (record (priv w d) { skb = some skb.id; locked = true })
      (record w { calls = Call.netif_trans_update d ∷ w.calls })

module _ (env : Env) where
  hw_tx_2020-empty :
      (w : World) (d : DevId) (buf : List ℕ) (len : ℕ)
      → 34 ≤ len
      → (priv w d).locked ≡ false
      → (priv w d).ppool ≡ []
      → hw_tx_2020 env buf len d w ≡ ok tt (set_priv d (record (priv w d) { locked = true }) w)
  unfolding hw_tx_2020 get_tx_buffer_2020 send_buffer
  hw_tx_2020-empty w sn0 buf len low lock e = simp (le→ltb len 34 low, lock, e) refl
  hw_tx_2020-empty w sn1 buf len low lock e = simp (le→ltb len 34 low, lock, e) refl

  tx_2020-empty :
      (w : World) (d : DevId) (skb : Skb)
      → (priv w d).locked ≡ false
      → (priv w d).ppool ≡ []
      → tx_2020 env skb d w ≡ ok 0 (stuck d skb w)
  unfolding tx_2020
  tx_2020-empty w sn0 skb lock e =
      let u : World = record w {
        priv0 = record (w.priv0) { skb = some skb.id };
        calls = Call.netif_trans_update sn0 ∷ w.calls;
      } in
      rw (hw_tx_2020-empty u sn0 (pad skb.bytes) _ (frame_length skb.bytes) lock e) refl
  tx_2020-empty w sn1 skb lock e =
      let u : World = record w {
        priv1 = record (w.priv1) { skb = some skb.id };
        calls = Call.netif_trans_update sn1 ∷ w.calls;
      } in
      rw (hw_tx_2020-empty u sn1 (pad skb.bytes) _ (frame_length skb.bytes) lock e) refl

  hw_tx_2020-locked :
      (w : World) (d : DevId) (buf : List ℕ) (len : ℕ)
      → 34 ≤ len
      → (priv w d).locked ≡ true
      → hw_tx_2020 env buf len d w ≡ fault Fault.deadlock
  unfolding hw_tx_2020 get_tx_buffer_2020
  hw_tx_2020-locked w sn0 buf len low lock = simp (le→ltb len 34 low, lock) refl
  hw_tx_2020-locked w sn1 buf len low lock = simp (le→ltb len 34 low, lock) refl

  tx_2020-locked :
      (w : World) (d : DevId) (skb : Skb)
      → (priv w d).locked ≡ true
      → tx_2020 env skb d w ≡ fault Fault.deadlock
  unfolding tx_2020
  tx_2020-locked w sn0 skb lock =
      let u : World = record w {
        priv0 = record (w.priv0) { skb = some skb.id };
        calls = Call.netif_trans_update sn0 ∷ w.calls;
      } in
      rw (hw_tx_2020-locked u sn0 (pad skb.bytes) _ (frame_length skb.bytes) lock) refl
  tx_2020-locked w sn1 skb lock =
      let u : World = record w {
        priv1 = record (w.priv1) { skb = some skb.id };
        calls = Call.netif_trans_update sn1 ∷ w.calls;
      } in
      rw (hw_tx_2020-locked u sn1 (pad skb.bytes) _ (frame_length skb.bytes) lock) refl

  interrupt_2020-locked :
      (w : World) (d : DevId)
      → (priv w d).locked ≡ true
      → interrupt_2020 env d w ≡ fault Fault.deadlock
  unfolding interrupt_2020 napi_interrupt_2020 regular_interrupt serve
  interrupt_2020-locked w sn0 lock = elim (Bool-cases env.use_napi) [
    | inl c ↦ simp (c, lock) refl
    | inr c ↦ simp (c, lock) refl
  ]
  interrupt_2020-locked w sn1 lock = elim (Bool-cases env.use_napi) [
    | inl c ↦ simp (c, lock) refl
    | inr c ↦ simp (c, lock) refl
  ]

  -- On an empty pool the transmission of any socket buffer returns 0 with the packet not sent and the
  -- lock of the device held; then every other transmission on the device, and every interrupt of it,
  -- waits for the lock for ever.
  tx_2020-tx_2020 :
      (w : World) (d : DevId) (skb next : Skb)
      → (priv w d).locked ≡ false
      → (priv w d).ppool ≡ []
      → (tx_2020 env skb d w ≡ ok 0 (stuck d skb w))
        × (tx_2020 env next d (stuck d skb w) ≡ fault Fault.deadlock)
        × (interrupt_2020 env d (stuck d skb w) ≡ fault Fault.deadlock)
  tx_2020-tx_2020 w sn0 skb next lock e = (
    tx_2020-empty w sn0 skb lock e,
    tx_2020-locked (stuck sn0 skb w) sn0 next refl,
    interrupt_2020-locked (stuck sn0 skb w) sn0 refl,
  )
  tx_2020-tx_2020 w sn1 skb next lock e = (
    tx_2020-empty w sn1 skb lock e,
    tx_2020-locked (stuck sn1 skb w) sn1 next refl,
    interrupt_2020-locked (stuck sn1 skb w) sn1 refl,
  )
