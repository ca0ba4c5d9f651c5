-- ===== src/Snull/V2020/Interrupt.antt =====
-- snull/snull_3dec2020.c: the interrupt handlers keep the invariant.
use raspberrypimodules.Prelude.{
  ◌≤◌, ℕ, suc, ◌≡◌, true, false, Option, none, some, inl, inr, arith, Bool-cases, if◌then◌else◌,
}
use raspberrypimodules.Snull.Types.{DevId, sn0, sn1, Env, World, priv, snull_rx_intr, snull_tx_intr}
use raspberrypimodules.Snull.Monad.{◌>>◌, skip, spin_unlock}
use raspberrypimodules.Snull.Receive.{rx_ints}
use raspberrypimodules.Snull.Interrupt.{has_flag}
use raspberrypimodules.Snull.Inv.{Inv}
use raspberrypimodules.Snull.Inv.Interrupt.{Held, unlock-Inv, regular_interrupt-Inv}
use raspberrypimodules.Snull.Returns
use raspberrypimodules.Snull.Returns.{Returns, returns}
use raspberrypimodules.Snull.V2020.{free_skb, tx_done_2020, napi_interrupt_2020, interrupt_2020}

module _ (env : Env) {n k n' k' : ℕ} where
  free_skb-Held :
      {w : World} (d : DevId) (skb : Option ℕ)
      → Held env d true n k n' k' w
      → Returns (λ _. Held env d true n k n' k') (free_skb d skb w)
  unfolding free_skb
  free_skb-Held d none h = returns h
  free_skb-Held sn0 (some x) (s, t) = returns (ground arith)
  free_skb-Held sn1 (some x) (s, t) = returns (ground arith)

module _ (env : Env) {n k n' k' : ℕ} where
  tx_done_2020-Held :
      {w : World} (d : DevId)
      → Held env d true n k n' k' w
      → Returns (λ _. Held env d true n k n' k') (tx_done_2020 d w)
  unfolding tx_done_2020
  tx_done_2020-Held {w} sn0 (s, t) = free_skb-Held env sn0 w.priv0.skb (ground arith)
  tx_done_2020-Held {w} sn1 (s, t) = free_skb-Held env sn1 w.priv1.skb (ground arith)

module _ (env : Env) {n k n' k' : ℕ} where
  finish_2020-Inv :
      {w : World} (d : DevId) (status : ℕ)
      → Held env d true n k n' k' w
      → Returns
          (λ _. Inv env d n k n' k')
          (((if has_flag status snull_tx_intr then tx_done_2020 d else skip) >> spin_unlock d) w)
  finish_2020-Inv d status h = elim (Bool-cases (has_flag status snull_tx_intr)) [
    | inl e ↦ rw e (Returns.bind (tx_done_2020-Held env d h) λ _ v h'. unlock-Inv env d h')
    | inr e ↦ rw e (unlock-Inv env d h)
  ]

module _ (env : Env) {n k n' k' : ℕ} where
  napi_interrupt_2020-Inv :
      {w : World} (d : DevId) (j : ℕ)
      → env.use_napi ≡ true
      → Inv env d n k n' k' w
      → (has_flag (priv w d).status snull_rx_intr ≡ false → k ≤ j)
      → Returns (λ _. Inv env d n j n' k') (napi_interrupt_2020 d w)
  unfolding napi_interrupt_2020 rx_ints
  napi_interrupt_2020-Inv {w} sn0 j nap (s, t) down =
      rw s.lock (elim (Bool-cases (has_flag w.priv0.status snull_rx_intr)) [
        | inl e ↦ rw e (finish_2020-Inv env {k = j} sn0 w.priv0.status (ground arith))
        | inr e ↦ rw e (
            let le : k ≤ j = down e in
            finish_2020-Inv env {k = j} sn0 w.priv0.status (ground arith))
      ])
  napi_interrupt_2020-Inv {w} sn1 j nap (s, t) down =
      rw s.lock (elim (Bool-cases (has_flag w.priv1.status snull_rx_intr)) [
        | inl e ↦ rw e (finish_2020-Inv env {k = j} sn1 w.priv1.status (ground arith))
        | inr e ↦ rw e (
            let le : k ≤ j = down e in
            finish_2020-Inv env {k = j} sn1 w.priv1.status (ground arith))
      ])

  -- Either handler: the receive flag, if it is up, accounts for one packet of the queue.
  pub interrupt_2020-Inv :
      {w : World} (d : DevId) (j : ℕ)
      → Inv env d n k n' k' w
      → (has_flag (priv w d).status snull_rx_intr ≡ true → k ≤ suc j)
      → (has_flag (priv w d).status snull_rx_intr ≡ false → k ≤ j)
      → Returns (λ _. Inv env d n j n' k') (interrupt_2020 env d w)
  unfolding interrupt_2020
  interrupt_2020-Inv d j i up down = elim (Bool-cases env.use_napi) [
    | inl e ↦ simp e (napi_interrupt_2020-Inv d j e i down)
    | inr e ↦ simp e (regular_interrupt-Inv env d j i up down)
  ]
