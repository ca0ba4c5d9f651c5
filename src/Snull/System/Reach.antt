-- ===== src/Snull/System/Reach.antt =====
-- Every run of allowed calls keeps the invariant.
use raspberrypimodules.Prelude.{ℕ, suc, ◌≡◌}
use raspberrypimodules.Snull.Types.{DevId, sn0, sn1, World, Env}
use raspberrypimodules.Snull.Monad.{Run, ok}
use raspberrypimodules.Snull.Inv.{Inv, Inv-swap}
use raspberrypimodules.Snull.Inv.Transmit.{tx-Inv, tx_timeout-Inv}
use raspberrypimodules.Snull.Returns
use raspberrypimodules.Snull.Returns.{Returns, returns}
use raspberrypimodules.Snull.System.{
  Event, handle, Allowed, config-Inv, change_mtu-Inv, open_dev-Inv, release_dev-Inv,
}

-- Both devices are sound, with `suc n` and `suc n'` packets, and no packet waits where receive
-- interrupts are enabled.
abbrev pub Safe : Env → (n n' : ℕ) → World → Type 0
Safe env n n' w = Inv env sn0 (suc n) 0 (suc n') 0 w

module _ (env : Env) {n n' : ℕ} {w : World} where
  -- A command of one device, whichever it is.
  on_device :
      (d : DevId) (r : Run (Unit {0}))
      → ((a b : ℕ)
          → Inv env d (suc a) 0 (suc b) 0 w
          → Returns (λ _. Inv env d (suc a) 0 (suc b) 0) r)
      → Safe env n n' w
      → Returns (λ _. Safe env n n') r
  on_device sn0 r f i = f n n' i
  on_device sn1 r f i = Returns.mono (f n' n (Inv-swap sn0 i)) λ _ v h. Inv-swap sn1 h

  -- A call that is allowed in a safe world returns without a fault, and leaves a safe world with as
  -- many packets of each device.
  pub handle-Safe :
      (e : Event) → Safe env n n' w → Allowed e w → Returns (λ _. Safe env n n') (handle env e w)
  unfolding handle
  handle-Safe (Event.transmit d skb) i (awake, le) =
      on_device d _ (λ a b h. Returns.bind (tx-Inv env d skb h awake le) λ _ v p. returns p.1) i
  handle-Safe (Event.timeout d) i full = on_device d _ (λ a b h. tx_timeout-Inv env d h full) i
  handle-Safe (Event.bring_up d) i full =
      on_device d _ (λ a b h. Returns.bind (open_dev-Inv env d h full) λ _ v p. returns p) i
  handle-Safe (Event.take_down d) i u =
      on_device d _ (λ a b h. Returns.bind (release_dev-Inv env d h) λ _ v p. returns p) i
  handle-Safe (Event.configure d m) i u =
      on_device d _ (λ a b h. Returns.bind (config-Inv env d m h) λ _ v p. returns p) i
  handle-Safe (Event.resize d m) i u =
      on_device d _ (λ a b h. Returns.bind (change_mtu-Inv env d m h) λ _ v p. returns p) i

-- The worlds that allowed calls lead to.
pub data Reach (env : Env) (w : World) : World → Type 0 where
  here : Reach env w w
  next :
      {v u : World} (e : Event)
      → Reach env w v
      → Allowed e v
      → handle env e v ≡ ok tt u
      → Reach env w u

-- Every world that allowed calls lead to from a safe one is safe.
pub Reach-Safe :
    (env : Env) {n n' : ℕ} {w v : World} → Safe env n n' w → Reach env w v → Safe env n n' v
Reach-Safe env i here = i
Reach-Safe env {n} {n'} i (next e r a eq) =
    Returns.at (λ _. Safe env n n') (handle-Safe env e (Reach-Safe env i r) a) eq
