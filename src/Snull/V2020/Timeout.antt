-- ===== src/Snull/V2020/Timeout.antt =====
-- snull/snull_3dec2020.c: the transmit timeout, which makes a new pool.
use mathlib.Core.Path.{subst}
use raspberrypimodules.Prelude.{
  ℕ, zero, suc, ◌+◌, ◌<◌, ◌≡◌, refl, sym, true, false, List, [], ◌∷◌, Option, arith, length, is_nil,
  bit_or,
}
use raspberrypimodules.Snull.Types.{
  DevId, sn0, sn1, Packet, Priv, NetDev, Env, World, twin, priv, net, snull_tx_intr,
}
use raspberrypimodules.Snull.Monad.{◌>>◌, spin_lock, spin_unlock, netif_wake_queue}
use raspberrypimodules.Snull.Pool.{setup_loop, setup_pool, teardown_loop, teardown_pool}
use raspberrypimodules.Snull.Inv.{All, Owned, Inv}
use raspberrypimodules.Snull.Returns
use raspberrypimodules.Snull.Returns.{Returns, returns}
use raspberrypimodules.Snull.Inv.Transmit.{tx_flag}
use raspberrypimodules.Snull.System.Start.{Allocates}
use raspberrypimodules.Snull.V2020.Interrupt.{interrupt_2020-Inv}
use raspberrypimodules.Snull.V2020.{tx_timeout_2020}

-- The private area of `d` while its pool is made anew: all but the pool is as in `base`.
record Rebuilt (d : DevId) (m : ℕ) (base other : Priv) (other_net : NetDev) (w : World)
    : Type 0 where
  lock : (priv w d).locked ≡ true
  pool : All (Owned d) (priv w d).ppool
  count : length (priv w d).ppool ≡ m
  queue : (priv w d).rx_queue ≡ base.rx_queue
  status : (priv w d).status ≡ base.status
  ints : (priv w d).rx_int_enabled ≡ base.rx_int_enabled
  at_other : priv w (twin d) ≡ other
  at_net : net w (twin d) ≡ other_net

module _ {base other : Priv} {other_net : NetDev} where
  teardown_loop-Rebuilt :
      {w : World} (d : DevId) (l : List Packet)
      → (priv w d).ppool ≡ l
      → Rebuilt d (length l) base other other_net w
      → Returns (λ _. Rebuilt d 0 base other other_net) (teardown_loop d l w)
  unfolding teardown_loop
  teardown_loop-Rebuilt d [] e i = returns i
  teardown_loop-Rebuilt sn0 (x ∷ l) e i = teardown_loop-Rebuilt sn0 l refl (ground arith)
  teardown_loop-Rebuilt sn1 (x ∷ l) e i = teardown_loop-Rebuilt sn1 l refl (ground arith)

module _ (kmalloc : ℕ → Option Packet) {base other : Priv} {other_net : NetDev} where
  setup_loop-Rebuilt :
      (d : DevId) (i m : ℕ) (w : World)
      → Allocates kmalloc i
      → Rebuilt d m base other other_net w
      → Returns (λ _. Rebuilt d (m + i) base other other_net) (setup_loop kmalloc d i w)
  unfolding setup_loop
  setup_loop-Rebuilt d zero m w good f = returns (ground arith)
  setup_loop-Rebuilt sn0 (suc i) m w good f =
      let (p, e, room) = good i (omega arith) in
      rw (e, setup_loop)
        (Returns.mono
          (setup_loop-Rebuilt sn0 i (suc m) _ (λ j lt. good j (omega arith)) (ground arith))
          λ _ v h. ground arith)
  setup_loop-Rebuilt sn1 (suc i) m w good f =
      let (p, e, room) = good i (omega arith) in
      rw (e, setup_loop)
        (Returns.mono
          (setup_loop-Rebuilt sn1 i (suc m) _ (λ j lt. good j (omega arith)) (ground arith))
          λ _ v h. ground arith)

  setup_pool-Rebuilt :
      {w : World} (d : DevId) (m : ℕ)
      → Allocates kmalloc m
      → Rebuilt d 0 base other other_net w
      → Returns (λ _. Rebuilt d m base other other_net) (setup_pool kmalloc m d w)
  unfolding setup_pool
  setup_pool-Rebuilt sn0 m good f =
      Returns.mono (setup_loop-Rebuilt sn0 m 0 _ good (ground arith)) λ _ v h. ground arith
  setup_pool-Rebuilt sn1 m good f =
      Returns.mono (setup_loop-Rebuilt sn1 m 0 _ good (ground arith)) λ _ v h. ground arith

not_nil : (l : List Packet) (m : ℕ) → length l ≡ suc m → is_nil l ≡ false
not_nil [] m e = absurd (omega arith)
not_nil (x ∷ l) m e = refl

-- What the timeout leaves: the invariant, a pool that is full again, and the queue awake. The packets of
-- `d` that are in the receive queue of the twin come on top of those of the pool.
abbrev pub Renewed : Env → DevId → (m n' : ℕ) → World → Type 0
Renewed env d m n' w =
    Inv env d (m + length (priv w (twin d)).rx_queue) 0 n' 0 w
    × (length (priv w d).ppool ≡ m)
    × ((net w d).queue_stopped ≡ false)

module _ (env : Env) {n n' : ℕ} where
  -- The lock is given back, and the queue is woken.
  end-Renewed :
      {w u : World} (d : DevId) (m : ℕ)
      → Inv env d n 0 n' 0 w
      → Rebuilt d (suc m) (priv w d) (priv w (twin d)) (net w (twin d)) u
      → Returns (λ _. Renewed env d (suc m) n') ((spin_unlock d >> netif_wake_queue d) u)
  end-Renewed {u = u} sn0 m (s, t) f =
      let full : is_nil u.priv0.ppool ≡ false = not_nil u.priv0.ppool m f.count in
      returns ((ground arith, ground arith), f.count, refl)
  end-Renewed {u = u} sn1 m (s, t) f =
      let full : is_nil u.priv1.ppool ≡ false = not_nil u.priv1.ppool m f.count in
      returns ((ground arith, ground arith), f.count, refl)

  renew :
      {w : World} (kmalloc : ℕ → Option Packet) (d : DevId) (m : ℕ)
      → env.pool_size ≡ suc m
      → Allocates kmalloc (suc m)
      → Inv env d n 0 n' 0 w
      → Returns
          (λ _. Renewed env d (suc m) n')
          ((do
            spin_lock d
            teardown_pool d
            setup_pool kmalloc env.pool_size d
            spin_unlock d
            netif_wake_queue d)
            w)
  unfolding teardown_pool
  renew {w} kmalloc sn0 m size good (s, t) =
      let all : Allocates kmalloc env.pool_size = subst (Allocates kmalloc) (sym size) good in
      rw s.lock (
        Returns.bind
          (teardown_loop-Rebuilt {base = w.priv0} {other = w.priv1} {other_net = w.net1} sn0
            w.priv0.ppool refl (ground arith))
          λ _ v f. Returns.bind (setup_pool-Rebuilt kmalloc sn0 env.pool_size all f) λ _ u g.
            end-Renewed {w = w} sn0 m (s, t)
              (subst (λ x. Rebuilt sn0 x w.priv0 w.priv1 w.net1 u) size g))
  renew {w} kmalloc sn1 m size good (s, t) =
      let all : Allocates kmalloc env.pool_size = subst (Allocates kmalloc) (sym size) good in
      rw s.lock (
        Returns.bind
          (teardown_loop-Rebuilt {base = w.priv1} {other = w.priv0} {other_net = w.net0} sn1
            w.priv1.ppool refl (ground arith))
          λ _ v f. Returns.bind (setup_pool-Rebuilt kmalloc sn1 env.pool_size all f) λ _ u g.
            end-Renewed {w = w} sn1 m (s, t)
              (subst (λ x. Rebuilt sn1 x w.priv1 w.priv0 w.net0 u) size g))

module _ (env : Env) {n n' : ℕ} where
  -- With the invariant, and if no allocation fails, a transmit timeout ends without a fault and keeps
  -- the invariant, with or without NAPI: the pool has `pool_size` packets again and the queue is awake.
  -- The packets of the device that are on their way are not freed and not counted in the new pool, so
  -- that the device has more packets than `pool_size`, by as many as there are.
  pub tx_timeout_2020-Renewed :
      {w : World} (kmalloc : ℕ → Option Packet) (d : DevId) (m : ℕ)
      → env.pool_size ≡ suc m
      → Allocates kmalloc (suc m)
      → Inv env d n 0 n' 0 w
      → Returns (λ _. Renewed env d (suc m) n') (tx_timeout_2020 env kmalloc d w)
  unfolding tx_timeout_2020
  tx_timeout_2020-Renewed {w} kmalloc sn0 m size good (s, t) =
      let flag : bit_or w.priv0.status snull_tx_intr < 4 = tx_flag w.priv0.status s.status in
      Returns.bind
        (interrupt_2020-Inv env {n = n} {k = 0} {n' = n'} {k' = 0} sn0 0 (ground arith)
          (λ _. omega arith) (λ _. omega arith))
        λ _ v (s1, t1). renew env {n = n} kmalloc sn0 m size good (ground arith)
  tx_timeout_2020-Renewed {w} kmalloc sn1 m size good (s, t) =
      let flag : bit_or w.priv1.status snull_tx_intr < 4 = tx_flag w.priv1.status s.status in
      Returns.bind
        (interrupt_2020-Inv env {n = n} {k = 0} {n' = n'} {k' = 0} sn1 0 (ground arith)
          (λ _. omega arith) (λ _. omega arith))
        λ _ v (s1, t1). renew env {n = n} kmalloc sn1 m size good (ground arith)
