-- ===== src/Snull/Inv.antt =====
-- The invariant of the two devices.
pub mod Pool
pub mod Interrupt
pub mod Transmit
pub mod Poll
use raspberrypimodules.Prelude.{
  ℕ, ◌+◌, ◌≤◌, ◌<◌, ◌≡◌, Bool, true, false, List, [], ◌∷◌, length, is_nil,
}
use raspberrypimodules.Snull.Types.{
  DevId, sn0, sn1, Packet, World, Env, twin, eth_data_len, priv, net,
}

abbrev pub All {ℓ} : {A : Type ℓ} → (A → Type 0) → List A → Type 0
All P [] = Unit {0}
All P (x ∷ xs) = P x × All P xs

-- A packet of the pool of `d`, with the room of `data`.
abbrev pub Owned : DevId → Packet → Type 0
Owned d pkt = (pkt.dev ≡ d) × (length pkt.bytes ≡ eth_data_len)

-- A packet of `d` that has been filled.
abbrev pub Flying : DevId → Packet → Type 0
Flying d pkt = (pkt.dev ≡ d) × (length pkt.bytes ≡ eth_data_len) × (pkt.datalen ≤ eth_data_len)

-- The device `d` with its lock at `b`, whose packets are `n` (those in its own pool and those in the
-- receive queue of the twin), and whose receive queue holds at most `k` if receive interrupts are
-- enabled.
pub record Sound (env : Env) (d : DevId) (b : Bool) (n k : ℕ) (w : World) : Type 0 where
  pub lock : (priv w d).locked ≡ b
  pub pool : All (Owned d) (priv w d).ppool
  pub queue : All (Flying (twin d)) (priv w d).rx_queue
  pub status : (priv w d).status < 4
  pub count : length (priv w d).ppool + length (priv w (twin d)).rx_queue ≡ n
  pub awake : is_nil (priv w d).ppool ≡ true → (net w d).queue_stopped ≡ true
  pub idle : (priv w d).rx_int_enabled ≡ true → length (priv w d).rx_queue ≤ k
  pub enabled : env.use_napi ≡ false → (priv w d).rx_int_enabled ≡ true

-- Both devices, the one that an operation is about first.
abbrev pub Inv : Env → DevId → (n k n' k' : ℕ) → World → Type 0
Inv env d n k n' k' w = Sound env d false n k w × Sound env (twin d) false n' k' w

-- The same with the other device first.
module _ {env : Env} {n k n' k' : ℕ} {w : World} where
  pub Inv-swap : (d : DevId) → Inv env d n k n' k' w → Inv env (twin d) n' k' n k w
  Inv-swap sn0 (s, t) = (t, s)
  Inv-swap sn1 (s, t) = (t, s)

  pub Inv-unswap : (d : DevId) → Inv env (twin d) n' k' n k w → Inv env d n k n' k' w
  Inv-unswap sn0 (s, t) = (t, s)
  Inv-unswap sn1 (s, t) = (t, s)
