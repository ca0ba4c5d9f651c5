-- ===== src/Snull/Inv/Interrupt.antt =====
-- The interrupt handlers keep the invariant.
use mathlib.Core.Path.{subst}
use raspberrypimodules.Prelude.{
  sym, ℕ, suc, ◌+◌, ◌≤◌, ◌≡◌, Bool, true, false, Option, none, some, inl, inr, arith, Bool-cases,
  List-cases, length,
}
use raspberrypimodules.Snull.Types.{
  DevId, sn0, sn1, Packet, Env, World, twin, priv, snull_rx_intr, snull_tx_intr,
}
use raspberrypimodules.Snull.Monad.{pure, ◌>>◌, spin_unlock}
use raspberrypimodules.Snull.Receive.{rx, rx_ints}
use raspberrypimodules.Snull.Interrupt.{
  has_flag, serve, take_rx, tx_done, regular_interrupt, napi_interrupt, interrupt, finish,
  release_taken,
}
use raspberrypimodules.Snull.Inv.{Owned, Inv, Sound, Inv-swap, Inv-unswap}
use raspberrypimodules.Snull.Inv.Pool.{release_buffer-Inv}
use raspberrypimodules.Snull.Returns
use raspberrypimodules.Snull.Returns.{Returns, returns}

-- The device `d` with its lock at `b`, beside its twin.
abbrev pub Held : Env → DevId → Bool → (n k n' k' : ℕ) → World → Type 0
Held env d b n k n' k' w = Sound env d b n k w × Sound env (twin d) false n' k' w

-- The same where a packet that was taken from the queue is missing from the count of the twin.
abbrev Served : Env → DevId → Bool → (n k n' k' : ℕ) → Option Packet → World → Type 0
Served env d b n k n' k' none w = Held env d b n k n' k' w
Served env d b n k n' k' (some pkt) w =
    Owned (twin d) pkt × (m : ℕ) × (n' ≡ suc m) × Held env d b n k m k' w

module _ (env : Env) {n k n' k' : ℕ} where
  rx-Held :
      {w : World} (d : DevId) (pkt : Packet)
      → Held env d true n k n' k' w
      → Returns (λ _. Held env d true n k n' k') (rx env d pkt w)
  unfolding rx
  rx-Held {w} sn0 pkt (s, t) = elim (Bool-cases (env.alloc_skb w.allocs (pkt.datalen + 2))) [
    | inl e ↦ rw e (returns (ground arith))
    | inr e ↦ rw e (returns (ground arith))
  ]
  rx-Held {w} sn1 pkt (s, t) = elim (Bool-cases (env.alloc_skb w.allocs (pkt.datalen + 2))) [
    | inl e ↦ rw e (returns (ground arith))
    | inr e ↦ rw e (returns (ground arith))
  ]

  tx_done-Held :
      {w : World} (d : DevId)
      → Held env d true n k n' k' w
      → Returns (λ _. Held env d true n k n' k') (tx_done d w)
  unfolding tx_done
  tx_done-Held sn0 (s, t) = returns (ground arith)
  tx_done-Held sn1 (s, t) = returns (ground arith)

module _ (env : Env) {n k n' k' : ℕ} where
  take_rx-Served :
      {w : World} (d : DevId) (j : ℕ)
      → k ≤ suc j
      → Held env d true n k n' k' w
      → Returns (Served env d true n j n' k') (take_rx env d (priv w d).rx_queue w)
  unfolding take_rx
  take_rx-Served {w} sn0 j kj (s, t) = elim (List-cases w.priv0.rx_queue) [
    | inl e ↦ rw e (returns (ground arith))
    | inr (pkt, xs, e) ↦
        let m : ℕ = length w.priv1.ppool + length xs in
        rw e (
          Returns.bind (rx-Held env {k = j} {n' = m} sn0 pkt (ground arith))
            λ _ v h. returns (ground arith, m, ground arith, h))
  ]
  take_rx-Served {w} sn1 j kj (s, t) = elim (List-cases w.priv1.rx_queue) [
    | inl e ↦ rw e (returns (ground arith))
    | inr (pkt, xs, e) ↦
        let m : ℕ = length w.priv0.ppool + length xs in
        rw e (
          Returns.bind (rx-Held env {k = j} {n' = m} sn1 pkt (ground arith))
            λ _ v h. returns (ground arith, m, ground arith, h))
  ]

module _ (env : Env) {n k n' k' : ℕ} where
  pub unlock-Inv :
      {w : World} (d : DevId)
      → Held env d true n k n' k' w
      → Returns (λ _. Inv env d n k n' k') (spin_unlock d w)
  unlock-Inv sn0 (s, t) = returns (ground arith)
  unlock-Inv sn1 (s, t) = returns (ground arith)

  finish-Inv :
      {w : World} (d : DevId) (status : ℕ)
      → Held env d true n k n' k' w
      → Returns (λ _. Inv env d n k n' k') (finish d status w)
  unfolding finish
  finish-Inv d status h = elim (Bool-cases (has_flag status snull_tx_intr)) [
    | inl e ↦ rw e (Returns.bind (tx_done-Held env d h) λ _ v h'. unlock-Inv d h')
    | inr e ↦ rw e (unlock-Inv d h)
  ]

module _ (env : Env) {n k n' k' : ℕ} where
  finish-Served :
      (d : DevId) (status : ℕ) (pkt : Option Packet) (w : World)
      → Served env d true n k n' k' pkt w
      → Returns (Served env d false n k n' k') ((finish d status >> pure pkt) w)
  finish-Served d status none w h = Returns.bind (finish-Inv env d status h) λ _ v h'. returns h'
  finish-Served d status (some pkt) w (o, m, e, h) =
      Returns.bind (finish-Inv env d status h) λ _ v h'. returns (o, m, e, h')

module _ (env : Env) {n k n' k' : ℕ} where
  -- The receive flag, if it is up, takes a packet off the queue.
  serve-Served :
      {w : World} (d : DevId) (j : ℕ)
      → Inv env d n k n' k' w
      → (has_flag (priv w d).status snull_rx_intr ≡ true → k ≤ suc j)
      → (has_flag (priv w d).status snull_rx_intr ≡ false → k ≤ j)
      → Returns (Served env d false n j n' k') (serve env d w)
  unfolding serve
  serve-Served {w} sn0 j (s, t) up down =
      let end = finish-Served env {k = j} sn0 w.priv0.status in
      let u : World = record w { priv0 = record (w.priv0) { locked = true; status = 0 } } in
      rw s.lock (elim (Bool-cases (has_flag w.priv0.status snull_rx_intr)) [
        | inl e ↦
            rw e (Returns.bind (take_rx-Served env {k = k} {w = u} sn0 j (up e) (ground arith)) end)
        | inr e ↦ rw e (let le : k ≤ j = down e in end none _ (ground arith))
      ])
  serve-Served {w} sn1 j (s, t) up down =
      let end = finish-Served env {k = j} sn1 w.priv1.status in
      let u : World = record w { priv1 = record (w.priv1) { locked = true; status = 0 } } in
      rw s.lock (elim (Bool-cases (has_flag w.priv1.status snull_rx_intr)) [
        | inl e ↦
            rw e (Returns.bind (take_rx-Served env {k = k} {w = u} sn1 j (up e) (ground arith)) end)
        | inr e ↦ rw e (let le : k ≤ j = down e in end none _ (ground arith))
      ])

  release_taken-Inv :
      (d : DevId) (pkt : Option Packet) (w : World)
      → Served env d false n k n' k' pkt w
      → Returns (λ _. Inv env d n k n' k') (release_taken pkt w)
  unfolding release_taken
  release_taken-Inv d none w h = returns h
  release_taken-Inv d (some pkt) w (o, m, e, h) =
      Returns.mono (release_buffer-Inv env (twin d) pkt (Inv-swap d h) o)
        λ _ v h'. Inv-unswap d (subst (λ x. Inv env (twin d) x k' n k v) (sym e) h')

module _ (env : Env) {n k n' k' : ℕ} where
  pub regular_interrupt-Inv :
      {w : World} (d : DevId) (j : ℕ)
      → Inv env d n k n' k' w
      → (has_flag (priv w d).status snull_rx_intr ≡ true → k ≤ suc j)
      → (has_flag (priv w d).status snull_rx_intr ≡ false → k ≤ j)
      → Returns (λ _. Inv env d n j n' k') (regular_interrupt env d w)
  unfolding regular_interrupt
  regular_interrupt-Inv d j i up down =
      Returns.bind (serve-Served env d j i up down) (release_taken-Inv env d)

  napi_interrupt-Inv :
      {w : World} (d : DevId) (j : ℕ)
      → env.use_napi ≡ true
      → Inv env d n k n' k' w
      → (has_flag (priv w d).status snull_rx_intr ≡ false → k ≤ j)
      → Returns (λ _. Inv env d n j n' k') (napi_interrupt env d w)
  unfolding napi_interrupt rx_ints
  napi_interrupt-Inv {w} sn0 j nap (s, t) down =
      rw s.lock (elim (Bool-cases (has_flag w.priv0.status snull_rx_intr)) [
        | inl e ↦ rw e (finish-Inv env {k = j} sn0 w.priv0.status (ground arith))
        | inr e ↦
            rw e
              (let le : k ≤ j = down e in finish-Inv env {k = j} sn0 w.priv0.status (ground arith))
      ])
  napi_interrupt-Inv {w} sn1 j nap (s, t) down =
      rw s.lock (elim (Bool-cases (has_flag w.priv1.status snull_rx_intr)) [
        | inl e ↦ rw e (finish-Inv env {k = j} sn1 w.priv1.status (ground arith))
        | inr e ↦
            rw e
              (let le : k ≤ j = down e in finish-Inv env {k = j} sn1 w.priv1.status (ground arith))
      ])

  -- Either handler: the receive flag, if it is up, accounts for one packet of the queue.
  pub interrupt-Inv :
      {w : World} (d : DevId) (j : ℕ)
      → Inv env d n k n' k' w
      → (has_flag (priv w d).status snull_rx_intr ≡ true → k ≤ suc j)
      → (has_flag (priv w d).status snull_rx_intr ≡ false → k ≤ j)
      → Returns (λ _. Inv env d n j n' k') (interrupt env d w)
  unfolding interrupt
  interrupt-Inv d j i up down = elim (Bool-cases env.use_napi) [
    | inl e ↦ simp e (napi_interrupt-Inv d j e i down)
    | inr e ↦ simp e (regular_interrupt-Inv d j i up down)
  ]
