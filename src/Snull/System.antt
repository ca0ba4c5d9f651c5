-- ===== src/Snull/System.antt =====
-- The driver under the kernel: which calls may come, and what every run of them keeps.
pub mod Reach
pub mod Start
pub mod Faults
pub mod Runs
use raspberrypimodules.Prelude.{
  ℕ, suc, ◌+◌, ◌≤◌, ◌≡◌, refl, Bool, true, false, ◌||◌, List, inl, inr, arith, Bool-cases, length,
  is_nil, some, not, bit_and, ◌==◌,
}
use raspberrypimodules.Prelude.Int.{ℤ, below, above}
use raspberrypimodules.Snull.Types.{
  DevId, sn0, sn1, Skb, World, Env, NetDev, twin, priv, net, set_net, eth_data_len,
}
use raspberrypimodules.Snull.Monad.{Cmd, ok, ◌>>◌, ◌>>=◌, skip, put_net}
use raspberrypimodules.Snull.Receive.{poll}
use raspberrypimodules.Snull.Transmit.{tx, tx_timeout}
use raspberrypimodules.Snull.Config.{IfMap, open_dev, release_dev, config, change_mtu, iff_up}
use raspberrypimodules.Snull.Inv.{Inv, Inv-swap, Inv-unswap}
use raspberrypimodules.Snull.Inv.Transmit.{tx-Inv, tx_timeout-Inv}
use raspberrypimodules.Snull.Returns
use raspberrypimodules.Snull.Returns.{Returns, returns}

-- A call of the kernel into the driver; the poll, which never works in this version, is left out.
pub data Event : Type 0 where
  transmit : DevId → Skb → Event
  timeout : DevId → Event
  bring_up take_down : DevId → Event
  configure : DevId → IfMap → Event
  resize : DevId → ℤ → Event

module _ (env : Env) where
  unfoldable pub handle : Event → Cmd (Unit {0})
  handle (Event.transmit d skb) = tx env skb d >> skip
  handle (Event.timeout d) = tx_timeout env d
  handle (Event.bring_up d) = open_dev d >> skip
  handle (Event.take_down d) = release_dev d >> skip
  handle (Event.configure d m) = config d m >> skip
  handle (Event.resize d m) = change_mtu d m >> skip

-- When the event is safe. The kernel transmits on a queue that is awake only; a frame fits into
-- a packet; a timeout and an open wake the queue, so the pool has a packet.
abbrev pub Allowed : Event → World → Type 0
Allowed (Event.transmit d skb) w =
    ((net w d).queue_stopped ≡ false) × (length skb.bytes ≤ eth_data_len)
Allowed (Event.timeout d) w = is_nil (priv w d).ppool ≡ false
Allowed (Event.bring_up d) w = is_nil (priv w d).ppool ≡ false
Allowed (Event.take_down d) w = Unit {0}
Allowed (Event.configure d m) w = Unit {0}
Allowed (Event.resize d m) w = Unit {0}

module _ (env : Env) {n n' : ℕ} {w : World} where
  -- Other fields of `struct net_device` do not matter.
  put_net-Inv :
      (d : DevId) (m : NetDev)
      → Inv env d n 0 n' 0 w
      → (is_nil (priv w d).ppool ≡ true → m.queue_stopped ≡ true)
      → Inv env d n 0 n' 0 (set_net d m w)
  put_net-Inv sn0 m (s, t) h = ground arith
  put_net-Inv sn1 m (s, t) h = ground arith

  pub config-Inv :
      (d : DevId) (m : IfMap)
      → Inv env d n 0 n' 0 w
      → Returns (λ _. Inv env d n 0 n' 0) (config d m w)
  unfolding config
  config-Inv d m i = elim (Bool-cases (bit_and (net w d).flags iff_up == 0)) [
    | inr e ↦ rw e (returns i)
    | inl e ↦ rw e (elim (Bool-cases (m.base_addr == (net w d).base_addr)) [
      | inr f ↦ rw f (returns i)
      | inl f ↦ rw f (elim (Bool-cases (m.irq == (net w d).irq)) [
        | inl g ↦ rw g (returns i)
        | inr g ↦ rw g (returns (put_net-Inv d _ i i.0.awake))
      ])
    ])
  ]

  pub change_mtu-Inv :
      (d : DevId) (m : ℤ)
      → Inv env d n 0 n' 0 w
      → Returns (λ _. Inv env d n 0 n' 0) (change_mtu d m w)
  unfolding change_mtu
  change_mtu-Inv sn0 m (s, t) = elim (Bool-cases (below m 68 || above m 1500)) [
    | inl e ↦ rw e (returns (s, t))
    | inr e ↦ rw (e, s.lock) (returns (ground arith))
  ]
  change_mtu-Inv sn1 m (s, t) = elim (Bool-cases (below m 68 || above m 1500)) [
    | inl e ↦ rw e (returns (s, t))
    | inr e ↦ rw (e, s.lock) (returns (ground arith))
  ]

  pub open_dev-Inv :
      (d : DevId)
      → Inv env d n 0 n' 0 w
      → is_nil (priv w d).ppool ≡ false
      → Returns (λ _. Inv env d n 0 n' 0) (open_dev d w)
  unfolding open_dev
  open_dev-Inv sn0 (s, t) h = returns (ground arith)
  open_dev-Inv sn1 (s, t) h = returns (ground arith)

  pub release_dev-Inv :
      (d : DevId) → Inv env d n 0 n' 0 w → Returns (λ _. Inv env d n 0 n' 0) (release_dev d w)
  unfolding release_dev
  release_dev-Inv sn0 (s, t) = returns (ground arith)
  release_dev-Inv sn1 (s, t) = returns (ground arith)
