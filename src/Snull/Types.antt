-- ===== src/Snull/Types.antt =====
-- The data of snull/snull.c and snull/snull.h: packets, the private area of a device, the fields
-- of `struct net_device` that the driver uses, and the two devices of `snull_devs`.
use raspberrypimodules.Prelude.{ℕ, ◌+◌, ◌%◌, ◌^◌, Bool, List, Option}

-- The index in `snull_devs`.
pub data DevId : Type 0 where
  sn0 sn1 : DevId

-- `snull_devs[dev == snull_devs[0] ? 1 : 0]`
abbrev pub twin : DevId → DevId
twin sn0 = sn1
twin sn1 = sn0

-- `struct snull_packet`. A chain of `next` pointers is a list of packets; `addr` is the address
-- that `kmalloc` returned, `bytes` the field `data`.
pub record Packet : Type 0 where
  pub addr : ℕ
  pub dev : DevId
  pub datalen : ℕ
  pub bytes : List ℕ

-- ETH_DATA_LEN, ETH_ZLEN and the sizes of `struct ethhdr` and `struct iphdr`.
abbrev pub eth_data_len : ℕ
eth_data_len = 1500

abbrev pub eth_zlen : ℕ
eth_zlen = 60

abbrev pub sizeof_ethhdr : ℕ
sizeof_ethhdr = 14

abbrev pub sizeof_iphdr : ℕ
sizeof_iphdr = 20

-- The flags of the status word.
abbrev pub snull_rx_intr : ℕ
snull_rx_intr = 1

abbrev pub snull_tx_intr : ℕ
snull_tx_intr = 2

-- The counters of `struct net_device_stats` are `unsigned long`: 32 bits on a 32-bit kernel.
abbrev pub ulong_mod : ℕ
ulong_mod = 2 ^ 32

abbrev pub add_ulong : ℕ → ℕ → ℕ
add_ulong a b = (a + b) % ulong_mod

pub record Stats : Type 0 where
  pub rx_packets : ℕ
  pub tx_packets : ℕ
  pub rx_bytes : ℕ
  pub tx_bytes : ℕ
  pub tx_errors : ℕ
  pub rx_dropped : ℕ

-- A socket buffer of the kernel: its identity, and the `len` bytes at `data`.
pub record Skb : Type 0 where
  pub id : ℕ
  pub bytes : List ℕ

-- `struct snull_priv`. `locked` is the state of the spin lock; `dev` is NULL as `none`.
pub record Priv : Type 0 where
  pub stats : Stats
  pub status : ℕ
  pub ppool : List Packet
  pub rx_queue : List Packet
  pub rx_int_enabled : Bool
  pub tx_packetlen : ℕ
  pub tx_packetdata : List ℕ
  pub skb : Option ℕ
  pub locked : Bool
  pub dev : Option DevId

-- The fields of `struct net_device` that the driver reads or writes.
pub record NetDev : Type 0 where
  pub flags : ℕ
  pub features : ℕ
  pub watchdog_timeo : ℕ
  pub base_addr : ℕ
  pub irq : ℕ
  pub mtu : ℕ
  pub hard_header_len : ℕ
  pub addr_len : ℕ
  pub dev_addr : List ℕ
  pub queue_stopped : Bool

-- What the driver asks of the kernel, in order.
pub data Call : Type 0 where
  netif_rx netif_receive_skb : DevId → List ℕ → Call
  dev_kfree_skb : Option ℕ → Call
  napi_schedule napi_complete napi_add napi_enable napi_disable : DevId → Call
  napi_complete_done : DevId → ℕ → Call
  netif_trans_update : DevId → Call
  kfree : ℕ → Call

-- The two devices with their private areas, how often `dev_alloc_skb` has been called, and what has
-- been asked of the kernel, latest first.
pub record World : Type 0 where
  pub net0 : NetDev
  pub net1 : NetDev
  pub priv0 : Priv
  pub priv1 : Priv
  pub allocs : ℕ
  pub calls : List Call

-- `netdev_priv`
abbrev pub priv : World → DevId → Priv
priv w sn0 = w.priv0
priv w sn1 = w.priv1

abbrev pub net : World → DevId → NetDev
net w sn0 = w.net0
net w sn1 = w.net1

abbrev pub set_priv : DevId → Priv → World → World
set_priv sn0 p w = record w { priv0 = p }
set_priv sn1 p w = record w { priv1 = p }

abbrev pub set_net : DevId → NetDev → World → World
set_net sn0 n w = record w { net0 = n }
set_net sn1 n w = record w { net1 = n }

-- The module parameters, and what the driver takes from the kernel: whether the `n`-th
-- `dev_alloc_skb` of a size succeeds, the checksum of `asm/checksum.h` over the header at the start
-- of a list of bytes with `ihl` words, `ether_setup`, and the bit NETIF_F_HW_CSUM.
pub record Env : Type 0 where
  pub lockup : ℕ
  pub timeout : ℕ
  pub use_napi : Bool
  pub pool_size : ℕ
  pub alloc_skb : ℕ → ℕ → Bool
  pub ip_fast_csum : List ℕ → ℕ → ℕ
  pub ether_setup : NetDev → NetDev
  pub netif_f_hw_csum : ℕ
