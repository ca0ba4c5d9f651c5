-- ===== src/Snull/V2020/Tests.antt =====
-- The theorems on snull/snull_3dec2020.c at concrete devices.
use raspberrypimodules.Prelude.{◌≡◌, refl, true, false, []}
use raspberrypimodules.Snull.Types.{sn0, Call}
use raspberrypimodules.Snull.Monad.{call, ◌>>◌}
use raspberrypimodules.Snull.Transmit.{tx}
use raspberrypimodules.Snull.Inv.{Inv}
use raspberrypimodules.Snull.Returns.{Returns}
use raspberrypimodules.Snull.Samples.{env_of, packet, world, frame, sound0, sound1}
use raspberrypimodules.Snull.V2020.{tx_2020, poll_2020}
use raspberrypimodules.Snull.V2020.Equal.{tx_2020-tx}
use raspberrypimodules.Snull.V2020.Poll.{Polled2020, poll_2020-Inv}

tx_2020-tx_example :
    tx_2020 (env_of false) frame sn0 world
    ≡ (call (Call.netif_trans_update sn0) >> tx (env_of false) frame sn0) world
tx_2020-tx_example = tx_2020-tx (env_of false) frame sn0 world (packet 1 sn0) [] refl refl

poll_2020-Inv_example :
    Returns
      (λ r v. Inv (env_of true) sn0 1 0 1 0 v × Polled2020 true sn0 2 0 r v)
      (poll_2020 (env_of true) true sn0 sn0 2 world)
poll_2020-Inv_example =
    poll_2020-Inv (env_of true) true sn0 2 0 (sound0 true, sound1 true) refl refl
