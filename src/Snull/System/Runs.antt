-- ===== src/Snull/System/Runs.antt =====
-- snull/snull.c from its initialisation on: every run of calls but polls, and the calls that end it.
use raspberrypimodules.Prelude.{ℕ, suc, ◌≡◌, ◌<◌, false, [], Option, length}
use raspberrypimodules.Snull.Types.{
  DevId, sn0, sn1, Packet, Skb, World, Env, priv, net, eth_data_len,
}
use raspberrypimodules.Snull.Monad.{Fault, fault, ◌>>◌}
use raspberrypimodules.Snull.Transmit.{tx, tx_timeout}
use raspberrypimodules.Snull.Config.{open_dev}
use raspberrypimodules.Snull.Init.{init}
use raspberrypimodules.Snull.Inv.{Inv, Inv-swap}
use raspberrypimodules.Snull.Returns
use raspberrypimodules.Snull.Returns.{Returns}
use raspberrypimodules.Snull.System.{Event, Allowed, handle}
use raspberrypimodules.Snull.System.Reach.{Safe, Reach, Reach-Safe, handle-Safe}
use raspberrypimodules.Snull.System.Start.{Allocates, init-Safe}
use raspberrypimodules.Snull.System.Faults.{tx-long, tx_timeout-tx, open_dev-tx}

-- What the next call does in a world: one that is allowed returns and leaves a safe world; a longer frame is written
-- past its packet; and a timeout or an open on an empty pool lets a transmission through that follows a null pointer.
pub record Handled (env : Env) (n : ℕ) (w : World) : Type 0 where
  pub allowed : (e : Event) → Allowed e w → Returns (λ _. Safe env n n) (handle env e w)
  pub long_frame :
      (d : DevId) (skb : Skb)
      → (net w d).queue_stopped ≡ false
      → eth_data_len < length skb.bytes
      → tx env skb d w ≡ fault Fault.overflow
  pub late_timeout :
      (d : DevId) (skb : Skb)
      → (priv w d).ppool ≡ []
      → (tx_timeout env d >> tx env skb d) w ≡ fault Fault.null_deref
  pub early_open :
      (d : DevId) (skb : Skb)
      → (priv w d).ppool ≡ []
      → (open_dev d >> tx env skb d) w ≡ fault Fault.null_deref

module _ (env : Env) {n : ℕ} {w : World} (i : Safe env n n w) where
  sound_first : (d : DevId) → Inv env d (suc n) 0 (suc n) 0 w
  sound_first sn0 = i
  sound_first sn1 = Inv-swap sn0 i

  Safe-Handled : Handled env n w
  Safe-Handled = record {
    allowed = λ e a. handle-Safe env e i a;
    long_frame = λ d skb awake long. tx-long env w d skb (sound_first d) awake long;
    late_timeout = λ d skb empty. tx_timeout-tx env w d skb (sound_first d) empty;
    early_open = λ d skb empty. open_dev-tx env w d skb (sound_first d).0.lock empty;
  }

-- After `snull_init` of snull/snull.c for both devices, with a pool of at least one packet and no allocation that
-- fails, consider any run of calls, none of them a poll, each of which is a transmission on a queue that is awake of a
-- frame of at most ETH_DATA_LEN (1500) bytes, a timeout or an open while the pool has a packet, a stop, a
-- configuration or a change of the MTU. In every world that it leads to, each such call returns without a fault and
-- keeps both devices sound with all their packets. The conditions on the frame and on the pool are needed there: a
-- longer frame on a queue that is awake is written past its packet, and a transmission directly behind a timeout or an
-- open while the pool is empty follows a null pointer.
pub Reach-Handled :
    (env : Env) (kmalloc : ℕ → Option Packet) (n : ℕ) (w : World)
    → env.pool_size ≡ suc n
    → Allocates kmalloc (suc n)
    → Returns
        (λ _ u. (v : World) → Reach env u v → Handled env n v)
        ((init env kmalloc sn0 >> init env kmalloc sn1) w)
Reach-Handled env kmalloc n w e good =
    Returns.mono (init-Safe env kmalloc n w e good)
      λ _ u h v r. Safe-Handled env (Reach-Safe env h.0 r)
