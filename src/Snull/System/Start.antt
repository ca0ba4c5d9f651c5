-- ===== src/Snull/System/Start.antt =====
-- The initialisation makes a safe world.
use mathlib.Core.Path.{subst}
use raspberrypimodules.Prelude.{
  sym, ℕ, zero, suc, ◌+◌, ◌<◌, ◌≡◌, true, false, [], Option, none, some, inl, inr, arith,
  Bool-cases, length,
}
use raspberrypimodules.Snull.Types.{
  DevId, sn0, sn1, Packet, Priv, World, Env, twin, priv, eth_data_len,
}
use raspberrypimodules.Snull.Monad.{◌>>◌}
use raspberrypimodules.Snull.Pool.{setup_loop, setup_pool}
use raspberrypimodules.Snull.Receive.{rx_ints}
use raspberrypimodules.Snull.Init.{setup_net, init, init_2020}
use raspberrypimodules.Snull.Inv.{All, Owned}
use raspberrypimodules.Snull.Returns
use raspberrypimodules.Snull.Returns.{Returns, returns}
use raspberrypimodules.Snull.System.Reach.{Safe}

-- The private area of `d` with a pool of `k` packets and nothing else, beside that of the twin.
record Fresh (d : DevId) (k : ℕ) (known : Option DevId) (other : Priv) (w : World) : Type 0 where
  lock : (priv w d).locked ≡ false
  pool : All (Owned d) (priv w d).ppool
  count : length (priv w d).ppool ≡ k
  queue : (priv w d).rx_queue ≡ []
  status : (priv w d).status ≡ 0
  ints : (priv w d).rx_int_enabled ≡ true
  at_dev : (priv w d).dev ≡ known
  at_other : priv w (twin d) ≡ other

-- The allocations of the pool succeed, with the room of a packet.
abbrev pub Allocates : (ℕ → Option Packet) → ℕ → Type 0
Allocates kmalloc n =
    (i : ℕ) → i < n → (p : Packet) × (kmalloc i ≡ some p) × (length p.bytes ≡ eth_data_len)

module _ (kmalloc : ℕ → Option Packet) {known : Option DevId} {other : Priv} where
  setup_loop-Fresh :
      (d : DevId) (i k : ℕ) (w : World)
      → Allocates kmalloc i
      → Fresh d k known other w
      → Returns (λ _. Fresh d (k + i) known other) (setup_loop kmalloc d i w)
  unfolding setup_loop
  setup_loop-Fresh d zero k w good f = returns (ground arith)
  setup_loop-Fresh sn0 (suc i) k w good f =
      let (p, e, room) = good i (omega arith) in
      rw (e, setup_loop)
        (Returns.mono
          (setup_loop-Fresh sn0 i (suc k) _ (λ j lt. good j (omega arith)) (ground arith))
          λ _ v h. ground arith)
  setup_loop-Fresh sn1 (suc i) k w good f =
      let (p, e, room) = good i (omega arith) in
      rw (e, setup_loop)
        (Returns.mono
          (setup_loop-Fresh sn1 i (suc k) _ (λ j lt. good j (omega arith)) (ground arith))
          λ _ v h. ground arith)

  setup_pool-Fresh :
      {w : World} (d : DevId) (n : ℕ)
      → Allocates kmalloc n
      → Fresh d 0 known other w
      → Returns (λ _. Fresh d n known other) (setup_pool kmalloc n d w)
  unfolding setup_pool
  setup_pool-Fresh sn0 n good f =
      Returns.mono (setup_loop-Fresh sn0 n 0 _ good (ground arith)) λ _ v h. ground arith
  setup_pool-Fresh sn1 n good f =
      Returns.mono (setup_loop-Fresh sn1 n 0 _ good (ground arith)) λ _ v h. ground arith

module _ (env : Env) (kmalloc : ℕ → Option Packet) (good : Allocates kmalloc env.pool_size) where
  init-Fresh :
      (w : World) (d : DevId)
      → Returns (λ _. Fresh d env.pool_size none (priv w (twin d))) (init env kmalloc d w)
  unfolding init setup_net rx_ints
  init-Fresh w sn0 = elim (Bool-cases env.use_napi) [
    | inl e ↦ simp e (setup_pool-Fresh kmalloc sn0 env.pool_size good (ground arith))
    | inr e ↦ simp e (setup_pool-Fresh kmalloc sn0 env.pool_size good (ground arith))
  ]
  init-Fresh w sn1 = elim (Bool-cases env.use_napi) [
    | inl e ↦ simp e (setup_pool-Fresh kmalloc sn1 env.pool_size good (ground arith))
    | inr e ↦ simp e (setup_pool-Fresh kmalloc sn1 env.pool_size good (ground arith))
  ]

  init_2020-Fresh :
      (w : World) (d : DevId)
      → Returns (λ _. Fresh d env.pool_size (some d) (priv w (twin d))) (init_2020 env kmalloc d w)
  unfolding init_2020 setup_net rx_ints
  init_2020-Fresh w sn0 = elim (Bool-cases env.use_napi) [
    | inl e ↦ simp e (setup_pool-Fresh kmalloc sn0 env.pool_size good (ground arith))
    | inr e ↦ simp e (setup_pool-Fresh kmalloc sn0 env.pool_size good (ground arith))
  ]
  init_2020-Fresh w sn1 = elim (Bool-cases env.use_napi) [
    | inl e ↦ simp e (setup_pool-Fresh kmalloc sn1 env.pool_size good (ground arith))
    | inr e ↦ simp e (setup_pool-Fresh kmalloc sn1 env.pool_size good (ground arith))
  ]

-- The two devices, fresh one after the other.
Fresh-Safe :
    (env : Env) {n : ℕ} {known0 known1 : Option DevId} {other : Priv} {v w : World}
    → Fresh sn0 (suc n) known0 other v
    → Fresh sn1 (suc n) known1 (priv v sn0) w
    → Safe env n n w × ((priv w sn0).dev ≡ known0) × ((priv w sn1).dev ≡ known1)
Fresh-Safe env {n} {known0} {known1} {other} {v} {w} f g = (ground arith, ground arith, g.at_dev)

-- `snull_init` of both devices, with a pool of at least one packet and no allocation that fails, makes
-- a safe world with that many packets of each device; `priv->dev` stays NULL.
pub init-Safe :
    (env : Env) (kmalloc : ℕ → Option Packet) (n : ℕ) (w : World)
    → env.pool_size ≡ suc n
    → Allocates kmalloc (suc n)
    → Returns
        (λ _ v. Safe env n n v × ((priv v sn0).dev ≡ none) × ((priv v sn1).dev ≡ none))
        ((init env kmalloc sn0 >> init env kmalloc sn1) w)
init-Safe env kmalloc n w e good =
    let all : Allocates kmalloc env.pool_size = subst (Allocates kmalloc) (sym e) good in
    Returns.bind (init-Fresh env kmalloc all w sn0) λ _ v f.
      Returns.mono (init-Fresh env kmalloc all v sn1) λ _ u g.
        Fresh-Safe env (subst (λ x. Fresh sn0 x none (priv w sn1) v) e f)
          (subst (λ x. Fresh sn1 x none (priv v sn0) u) e g)

-- `snull_init` of snull/snull_3dec2020.c for both devices, one after the other, from any world, with a pool size of at
-- least one and no allocation of a packet that fails, returns without a fault and records each device in its private
-- area. Both devices are then sound: the locks are free; each device has as many packets, in its pool and in the
-- receive queue of the other, as the pool size, all its own and of ETH_DATA_LEN bytes; its transmit queue is stopped if
-- its pool is empty; no packet waits where receive interrupts are enabled, as they are without NAPI; and the status has
-- no flags but the two that are known.
pub init_2020-Safe :
    (env : Env) (kmalloc : ℕ → Option Packet) (n : ℕ) (w : World)
    → env.pool_size ≡ suc n
    → Allocates kmalloc (suc n)
    → Returns
        (λ _ v. Safe env n n v × ((priv v sn0).dev ≡ some sn0) × ((priv v sn1).dev ≡ some sn1))
        ((init_2020 env kmalloc sn0 >> init_2020 env kmalloc sn1) w)
init_2020-Safe env kmalloc n w e good =
    let all : Allocates kmalloc env.pool_size = subst (Allocates kmalloc) (sym e) good in
    Returns.bind (init_2020-Fresh env kmalloc all w sn0) λ _ v f.
      Returns.mono (init_2020-Fresh env kmalloc all v sn1) λ _ u g.
        Fresh-Safe env (subst (λ x. Fresh sn0 x (some sn0) (priv w sn1) v) e f)
          (subst (λ x. Fresh sn1 x (some sn1) (priv v sn0) u) e g)
