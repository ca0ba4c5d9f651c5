-- ===== src/Snull/Samples.antt =====
-- Devices, packets and parameters to try the driver of snull on.
use raspberrypimodules.Prelude.{
  ℕ, ◌≡◌, refl, Bool, true, false, [], ◌∷◌, some, arith, length, replicate, length-replicate,
}
use raspberrypimodules.Snull.Types.{DevId, sn0, sn1, Packet, Skb, Priv, NetDev, Env, World}
use raspberrypimodules.Snull.Init.{zeroed}
use raspberrypimodules.Snull.Inv.{Sound}
use raspberrypimodules.Snull.Deliver.Arrival.{Quiet}
use raspberrypimodules.Snull.System.Start.{Allocates}
use raspberrypimodules.Snull.Frame.{station}

-- A checksum that is always 0, and allocations that succeed.
abbrev pub env_of : Bool → Env
env_of napi = record {
  lockup = 0;
  timeout = 5;
  use_napi = napi;
  pool_size = 2;
  alloc_skb = λ n size. true;
  ip_fast_csum = λ bytes words. 0;
  ether_setup = λ n. n;
  netif_f_hw_csum = 8;
}

abbrev pub packet : ℕ → DevId → Packet
packet a d = record { addr = a; dev = d; datalen = 0; bytes = replicate 1500 0 }

abbrev pub device : DevId → NetDev
device d = record {
  flags = 0;
  features = 0;
  watchdog_timeo = 0;
  base_addr = 0;
  irq = 0;
  mtu = 1500;
  hard_header_len = 14;
  addr_len = 6;
  dev_addr = station d;
  queue_stopped = false;
}

abbrev pub area : DevId → Priv
area d = record zeroed { ppool = packet 1 d ∷ []; rx_int_enabled = true; dev = some d }

abbrev pub world : World
world = record {
  net0 = device sn0;
  net1 = device sn1;
  priv0 = area sn0;
  priv1 = area sn1;
  allocs = 0;
  calls = [];
}

abbrev pub frame : Skb
frame = record { id = 7; bytes = replicate 40 1 }

filled : length (replicate {A = ℕ} 1500 0) ≡ 1500
filled = length-replicate {A = ℕ} 1500 0

pub sound0 : (napi : Bool) → Sound (env_of napi) sn0 false 1 0 world
sound0 napi = record {
  lock = refl;
  pool = ((refl, filled), tt);
  queue = tt;
  status = omega arith;
  count = refl;
  awake = λ e. cc;
  idle = λ e. omega arith;
  enabled = λ e. refl;
}

pub sound1 : (napi : Bool) → Sound (env_of napi) sn1 false 1 0 world
sound1 napi = record {
  lock = refl;
  pool = ((refl, filled), tt);
  queue = tt;
  status = omega arith;
  count = refl;
  awake = λ e. cc;
  idle = λ e. omega arith;
  enabled = λ e. refl;
}

pub quiet : Quiet (env_of false) world
quiet = record { regular = refl; no_lockup = refl; none_waits = elim [ sn0 ↦ refl | sn1 ↦ refl ] }

pub allocates : Allocates (λ i. some (packet i sn0)) 2
allocates = λ i h. (packet i sn0, refl, filled)
