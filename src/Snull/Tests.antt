-- ===== src/Snull/Tests.antt =====
-- The theorems on snull/snull.c at concrete devices, and runs of the code.
use raspberrypimodules.Prelude.{◌≡◌, refl, true, false, some, arith}
use raspberrypimodules.Snull.Types.{sn0, sn1, World, priv}
use raspberrypimodules.Snull.Monad.{◌>>◌}
use raspberrypimodules.Snull.Transmit.{tx}
use raspberrypimodules.Snull.Init.{init, init_2020}
use raspberrypimodules.Snull.System.Runs.{Handled, Reach-Handled}
use raspberrypimodules.Snull.Deliver.Arrival.{Delivered, tx-Delivered}
use raspberrypimodules.Snull.Returns.{Returns}
use raspberrypimodules.Snull.System.Reach.{Safe, Reach}
use raspberrypimodules.Snull.System.Start.{init_2020-Safe}
use raspberrypimodules.Prelude.{◌++◌, [], ◌∷◌, none, drop, get_or}
use raspberrypimodules.Prelude.Int.{pos}
use raspberrypimodules.Snull.Config.{header}
use raspberrypimodules.Snull.Frame.{room_of}
use raspberrypimodules.Snull.Cache.{
  header_cache, rebuild_header, hh_data_off, with_type, address_of, header_cache-header,
}
use raspberrypimodules.Snull.Samples.{
  device, env_of, packet, world, frame, sound0, sound1, quiet, allocates,
}

Reach-Handled_example :
    Returns
      (λ _ u. (v : World) → Reach (env_of false) u v → Handled (env_of false) 1 v)
      ((init (env_of false) (λ i. some (packet i sn0)) sn0
          >> init (env_of false) (λ i. some (packet i sn0)) sn1)
        world)
Reach-Handled_example =
    Reach-Handled (env_of false) (λ i. some (packet i sn0)) 1 world refl allocates

tx-Delivered_example :
    Returns
      (λ r v. (r ≡ 0) × Delivered (env_of false) sn0 frame true world v)
      (tx (env_of false) frame sn0 world)
tx-Delivered_example =
    tx-Delivered (env_of false) sn0 frame true (sound0 false, sound1 false) quiet refl (omega arith)
      refl

init_2020-Safe_example :
    Returns
      (λ _ v.
        Safe (env_of true) 1 1 v × ((priv v sn0).dev ≡ some sn0) × ((priv v sn1).dev ≡ some sn1))
      ((init_2020 (env_of true) (λ i. some (packet i sn0)) sn0
          >> init_2020 (env_of true) (λ i. some (packet i sn0)) sn1)
        world)
init_2020-Safe_example =
    init_2020-Safe (env_of true) (λ i. some (packet i sn0)) 1 world refl allocates

-- A packet of IPv4, whose type is 0x800.
header_cache-header_example :
    let n = device sn1 in
    let cached = header_cache n (record { ret = pos 0; hh_data = with_type (λ i. 9) 0x800 }) in
    let built = (header n (room_of λ i. 7) (1 ∷ []) 0x800 none none).0 in
    let given =
      header n
        (room_of λ i. 7)
        (1 ∷ [])
        0x800
        (some (address_of λ i. 4))
        (some (address_of λ i. 5)) in
    (cached.ret ≡ pos 0)
    × (drop hh_data_off cached.hh_data ++ 1 ∷ [] ≡ built)
    × (rebuild_header n given.0 ≡ (0, built))
header_cache-header_example =
    header_cache-header (device sn1) (λ i. get_or (device sn1).dev_addr i 0) (λ i. 9) (λ i. 7) 0x800
      (1 ∷ []) (λ i. 4) (λ i. 5) refl refl
