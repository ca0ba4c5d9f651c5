-- ===== src/Snull/Frame.antt =====
-- What the driver writes into a frame: the Ethernet header and the networks of the addresses.
use raspberrypimodules.Prelude.{
  ℕ, zero, suc, ◌<◌, ◌≡◌, ◌≢◌, refl, ap, ◌∙◌, true, List, [], ◌∷◌, none, arith, bit_xor, ◌==◌,
  get_or, take, drop, ◌%◌, ◌/◌,
}
use raspberrypimodules.Prelude.Bytes.{bytes_pass, bytes_pass_at}
use raspberrypimodules.Snull.Types.{DevId, sn0, sn1, NetDev, twin}
use raspberrypimodules.Snull.Config.{header}
use raspberrypimodules.Snull.Transmit.{toggle, swap_networks, saddr_octet, daddr_octet}

-- The station address that `snull_open` gives a device.
abbrev pub station : DevId → List ℕ
station sn0 = 0 ∷ 0x53 ∷ 0x4e ∷ 0x55 ∷ 0x4c ∷ 0x30 ∷ []
station sn1 = 0 ∷ 0x53 ∷ 0x4e ∷ 0x55 ∷ 0x4c ∷ 0x31 ∷ []

-- Fourteen bytes of headroom.
abbrev pub room_of : (ℕ → ℕ) → List ℕ
room_of f =
    f 0 ∷ f 1 ∷ f 2 ∷ f 3 ∷ f 4 ∷ f 5 ∷ f 6 ∷ f 7 ∷ f 8 ∷ f 9 ∷ f 10 ∷ f 11 ∷ f 12 ∷ f 13 ∷ []

-- With no addresses given, on a device that has its station address, `snull_header` puts the twin's
-- station address, its own and the type in network order in front of the packet, whatever the
-- headroom held, and returns the header length of the device.
header-station :
    (d : DevId) (n : NetDev) (f : ℕ → ℕ) (packet : List ℕ) (type : ℕ)
    → n.addr_len ≡ 6
    → n.dev_addr ≡ station d
    → let (frame, len) = header n (room_of f) packet type none none in
      (take 6 frame ≡ station (twin d))
      × (take 6 (drop 6 frame) ≡ station d)
      × (take 2 (drop 12 frame) ≡ (type / 256 % 256) ∷ (type % 256) ∷ [])
      × (drop 14 frame ≡ packet)
      × (len ≡ n.hard_header_len)
unfolding header
header-station sn0 n f packet type l a = rw (l, a) (refl, refl, refl, refl, refl)
header-station sn1 n f packet type l a = rw (l, a) (refl, refl, refl, refl, refl)

xor_passes : bytes_pass (λ v. bit_xor (bit_xor v 1) 1 == v) 256 ≡ true
unfolding bytes_pass
xor_passes = refl

xor_twice : (v : ℕ) → v < 256 → bit_xor (bit_xor v 1) 1 ≡ v
xor_twice v lt =
    let same : (bit_xor (bit_xor v 1) 1 == v) ≡ true = bytes_pass_at _ 256 lt xor_passes in
    ground arith

toggle_twice : (i : ℕ) (buf : List ℕ) → get_or buf i 0 < 256 → toggle i (toggle i buf) ≡ buf
toggle_twice i [] h = refl
toggle_twice zero (x ∷ xs) h = ap (λ y. y ∷ xs) (xor_twice x h)
toggle_twice (suc i) (x ∷ xs) h = ap (λ l. x ∷ l) (toggle_twice i xs h)

toggle_comm : (i j : ℕ) (buf : List ℕ) → i ≢ j → toggle i (toggle j buf) ≡ toggle j (toggle i buf)
toggle_comm i j [] h = refl
toggle_comm zero zero (x ∷ xs) h = absurd (h refl)
toggle_comm zero (suc j) (x ∷ xs) h = refl
toggle_comm (suc i) zero (x ∷ xs) h = refl
toggle_comm (suc i) (suc j) (x ∷ xs) h = ap (λ l. x ∷ l) (toggle_comm i j xs λ e. h (ap suc e))

-- A frame that passes the pair of devices twice has its addresses back, if the two octets are bytes.
swap_networks_twice :
    (buf : List ℕ)
    → get_or buf saddr_octet 0 < 256
    → get_or buf daddr_octet 0 < 256
    → swap_networks (swap_networks buf) ≡ buf
unfolding swap_networks
swap_networks_twice buf hs hd =
    ap (toggle daddr_octet) (
      toggle_comm saddr_octet daddr_octet (toggle saddr_octet buf) (omega arith)
      ∙ ap (toggle daddr_octet) (toggle_twice saddr_octet buf hs))
    ∙ toggle_twice daddr_octet buf hd
