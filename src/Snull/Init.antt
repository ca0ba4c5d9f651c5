-- ===== src/Snull/Init.antt =====
-- snull/snull.c and snull/snull_3dec2020.c, the initialisation of a device.
use raspberrypimodules.Prelude.{ℕ, true, false, [], Option, none, some, bit_or, if◌then◌else◌}
use raspberrypimodules.Snull.Types.{DevId, Packet, Stats, Priv, Env, Call}
use raspberrypimodules.Snull.Monad.{
  Cmd, skip, ◌>>=◌, ◌>>◌, get_priv, put_priv, get_net, put_net, call,
}
use raspberrypimodules.Snull.Pool.{setup_pool}
use raspberrypimodules.Snull.Receive.{rx_ints}

-- IFF_NOARP
abbrev pub iff_noarp : ℕ
iff_noarp = 0x80

abbrev no_stats : Stats
no_stats = record {
  rx_packets = 0;
  tx_packets = 0;
  rx_bytes = 0;
  tx_bytes = 0;
  tx_errors = 0;
  rx_dropped = 0;
}

-- `memset(priv, 0, sizeof(struct snull_priv))`
abbrev pub zeroed : Priv
zeroed = record {
  stats = no_stats;
  status = 0;
  ppool = [];
  rx_queue = [];
  rx_int_enabled = false;
  tx_packetlen = 0;
  tx_packetdata = [];
  skb = none;
  locked = false;
  dev = none;
}

module _ (env : Env) (kmalloc : ℕ → Option Packet) where
  -- The fields of `struct net_device`, which both versions set alike.
  unfoldable pub setup_net : DevId → Cmd (Unit {0})
  setup_net d = do
    n ← get_net d
    let m = env.ether_setup n
    put_net d (record m {
      watchdog_timeo = env.timeout;
      flags = bit_or m.flags iff_noarp;
      features = bit_or m.features env.netif_f_hw_csum;
    })

  -- `snull_init` of snull/snull.c: `priv->dev` stays NULL.
  unfoldable pub init : DevId → Cmd (Unit {0})
  unfolding setup_net
  init d = do
    setup_net d
    if env.use_napi then call (Call.napi_add d) else skip
    put_priv d zeroed
    rx_ints d true
    setup_pool kmalloc env.pool_size d

  -- `snull_init` of snull/snull_3dec2020.c: the device is recorded.
  unfoldable pub init_2020 : DevId → Cmd (Unit {0})
  unfolding setup_net
  init_2020 d = do
    setup_net d
    put_priv d zeroed
    if env.use_napi then call (Call.napi_add d) else skip
    p ← get_priv d
    put_priv d (record p { dev = some d })
    rx_ints d true
    setup_pool kmalloc env.pool_size d
