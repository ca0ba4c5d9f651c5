-- ===== src/Snull/Monad.antt =====
-- State and faults: a command of the driver changes the world, or the kernel crashes.
use raspberrypimodules.Prelude.{ℕ, Bool, true, false, ◌∷◌, if◌then◌else◌, ◌+◌}
use raspberrypimodules.Snull.Types.{
  DevId, Priv, NetDev, Call, World, Env, priv, net, set_priv, set_net,
}

-- A null pointer is followed, a write leaves its buffer, a lock is taken that is held, and a loop
-- that uses up its fuel.
pub data Fault : Type 0 where
  null_deref overflow deadlock out_of_fuel : Fault

pub data Run (A : Type 0) : Type 0 where
  ok : A → World → Run A
  fault : Fault → Run A

abbrev pub Cmd : Type 0 → Type 0
Cmd A = World → Run A

abbrev pub pure : {A : Type 0} → A → Cmd A
pure = ok

abbrev pub skip : Cmd (Unit {0})
skip = ok tt

abbrev pub crash : {A : Type 0} → Fault → Cmd A
crash f w = fault f

module _ {A B : Type 0} where
  abbrev pub and_then : Run A → (A → Cmd B) → Run B
  and_then (ok a w) k = k a w
  and_then (fault f) k = fault f

  infixl 5 ◌>>=◌ ◌>>◌
  abbrev pub ◌>>=◌ : Cmd A → (A → Cmd B) → Cmd B
  m >>= k = λ w. and_then (m w) k

  abbrev pub ◌>>◌ : Cmd A → Cmd B → Cmd B
  m >> n = m >>= λ _. n

abbrev pub get_priv : DevId → Cmd Priv
get_priv d w = ok (priv w d) w

abbrev pub put_priv : DevId → Priv → Cmd (Unit {0})
put_priv d p w = ok tt (set_priv d p w)

abbrev pub get_net : DevId → Cmd NetDev
get_net d w = ok (net w d) w

abbrev pub put_net : DevId → NetDev → Cmd (Unit {0})
put_net d n w = ok tt (set_net d n w)

-- A call of a kernel function that returns nothing to the driver.
abbrev pub call : Call → Cmd (Unit {0})
call c w = ok tt (record w { calls = c ∷ w.calls })

-- `spin_lock_irqsave` and `spin_lock`: on a lock that is held the one processor waits for ever.
abbrev pub take_lock : DevId → Priv → Cmd (Unit {0})
take_lock d p = if p.locked then crash Fault.deadlock else put_priv d (record p { locked = true })

abbrev pub spin_lock : DevId → Cmd (Unit {0})
spin_lock d = do p ← get_priv d; take_lock d p

abbrev pub spin_unlock : DevId → Cmd (Unit {0})
spin_unlock d = do p ← get_priv d; put_priv d (record p { locked = false })

abbrev pub netif_stop_queue : DevId → Cmd (Unit {0})
netif_stop_queue d = do n ← get_net d; put_net d (record n { queue_stopped = true })

-- `netif_start_queue` and `netif_wake_queue`.
abbrev pub netif_wake_queue : DevId → Cmd (Unit {0})
netif_wake_queue d = do n ← get_net d; put_net d (record n { queue_stopped = false })

-- `dev_alloc_skb`: whether the buffer was got.
abbrev pub dev_alloc_skb : Env → ℕ → Cmd Bool
dev_alloc_skb env size w = ok (env.alloc_skb w.allocs size) (record w { allocs = w.allocs + 1 })
