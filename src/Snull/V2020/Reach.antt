-- ===== src/Snull/V2020/Reach.antt =====
-- snull/snull_3dec2020.c under the kernel: which calls may come, and what every run of them keeps.
use raspberrypimodules.Prelude.{ℕ, suc, ◌≤◌, ◌≡◌, false, Bool, Option, length, is_nil, some}
use raspberrypimodules.Prelude.Int.{ℤ}
use raspberrypimodules.Snull.Types.{DevId, sn0, Packet, Skb, World, Env, priv, net, eth_data_len}
use raspberrypimodules.Snull.Monad.{Cmd, ok, ◌>>◌, skip}
use raspberrypimodules.Snull.Config.{IfMap, config, change_mtu}
use raspberrypimodules.Snull.Inv.{Inv}
use raspberrypimodules.Snull.Returns
use raspberrypimodules.Snull.Returns.{Returns}
use raspberrypimodules.Snull.System.Start.{Allocates}
use raspberrypimodules.Snull.V2020.{tx_2020, tx_timeout_2020, poll_2020, open_2020, release_2020}

-- A call of the kernel into the driver.
pub data Event2020 : Type 0 where
  transmit : DevId → Skb → Event2020
  timeout : (kmalloc : ℕ → Option Packet) → DevId → Event2020
  napi : (done : Bool) → DevId → ℕ → Event2020
  bring_up take_down : DevId → Event2020
  configure : DevId → IfMap → Event2020
  resize : DevId → ℤ → Event2020

module _ (env : Env) where
  unfoldable pub handle_2020 : Event2020 → Cmd (Unit {0})
  handle_2020 (Event2020.transmit d skb) = tx_2020 env skb d >> skip
  handle_2020 (Event2020.timeout kmalloc d) = tx_timeout_2020 env kmalloc d
  handle_2020 (Event2020.napi done d budget) = poll_2020 env done d d budget >> skip
  handle_2020 (Event2020.bring_up d) = open_2020 env d >> skip
  handle_2020 (Event2020.take_down d) = release_2020 env d >> skip
  handle_2020 (Event2020.configure d m) = config d m >> skip
  handle_2020 (Event2020.resize d m) = change_mtu d m >> skip

-- When the event is safe. The kernel transmits on a queue that is awake only; a frame fits into a packet;
-- an open wakes the queue, so the pool has a packet; a poll is of a device that is recorded in its
-- private area; the allocations of a timeout succeed. A timeout may come at any time.
abbrev pub Allowed2020 : Env → Event2020 → World → Type 0
Allowed2020 env (Event2020.transmit d skb) w =
    ((net w d).queue_stopped ≡ false) × (length skb.bytes ≤ eth_data_len)
Allowed2020 env (Event2020.timeout kmalloc d) w = Allocates kmalloc env.pool_size
Allowed2020 env (Event2020.napi done d budget) w = (priv w d).dev ≡ some d
Allowed2020 env (Event2020.bring_up d) w = is_nil (priv w d).ppool ≡ false
Allowed2020 env (Event2020.take_down d) w = Unit {0}
Allowed2020 env (Event2020.configure d m) w = Unit {0}
Allowed2020 env (Event2020.resize d m) w = Unit {0}

-- Both devices are sound, with at least one packet each, and no packet waits where receive interrupts are
-- enabled.
abbrev pub Safe2020 : Env → World → Type 0
Safe2020 env w = (n : ℕ) × (n' : ℕ) × Inv env sn0 (suc n) 0 (suc n') 0 w

-- The same with the device of an operation first.
abbrev SoundFor : Env → DevId → World → Type 0
SoundFor env d w = (n : ℕ) × (n' : ℕ) × Inv env d (suc n) 0 (suc n') 0 w

-- The worlds that allowed calls lead to.
pub data Reach2020 (env : Env) (w : World) : World → Type 0 where
  here : Reach2020 env w w
  next :
      {v u : World} (e : Event2020)
      → Reach2020 env w v
      → Allowed2020 env e v
      → handle_2020 env e v ≡ ok tt u
      → Reach2020 env w u
