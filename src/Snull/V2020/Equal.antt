-- ===== src/Snull/V2020/Equal.antt =====
-- snull/snull_3dec2020.c and snull/snull.c transmit alike, but for an empty pool and
-- netif_trans_update.
use mathlib.Core.Path.{fun_ext}
use raspberrypimodules.Prelude.{
  ℕ, ◌≡◌, refl, ap, ◌∙◌, inl, inr, false, List, ◌∷◌, some, is_nil, ltb, Bool-cases,
}
use raspberrypimodules.Snull.Types.{DevId, sn0, sn1, Packet, Skb, World, Env, Call, twin, priv}
use raspberrypimodules.Snull.Monad.{Run, ok, fault, Cmd, pure, and_then, ◌>>=◌, ◌>>◌, call}
use raspberrypimodules.Snull.Pool.{get_tx_buffer, enqueue_buf}
use raspberrypimodules.Snull.Interrupt.{interrupt}
use raspberrypimodules.Snull.Transmit.{rewrite_frame, fill, signal_rx, signal_tx, hw_tx, tx}
use raspberrypimodules.Snull.V2020.{
  get_tx_buffer_2020, interrupt_2020, signal_rx_2020, signal_tx_2020, send_buffer, hw_tx_2020,
  tx_2020,
}

and_then_assoc :
    {A B C : Type 0} (r : Run A) (f : A → Cmd B) (g : B → Cmd C)
    → and_then (and_then r f) g ≡ and_then r (λ a. f a >>= g)
and_then_assoc (ok a w) f g = refl
and_then_assoc (fault x) f g = refl

-- On a pool with a packet both get it.
get_tx_buffer_2020-get_tx_buffer :
    (d : DevId) (w : World) (pkt : Packet) (rest : List Packet)
    → (priv w d).ppool ≡ pkt ∷ rest
    → get_tx_buffer_2020 d w ≡ and_then (get_tx_buffer d w) (λ p. pure (some p))
unfolding get_tx_buffer_2020 get_tx_buffer
get_tx_buffer_2020-get_tx_buffer sn0 w pkt rest e = elim (Bool-cases w.priv0.locked) [
  | inl l ↦ simp l refl
  | inr l ↦ elim (Bool-cases (is_nil rest)) [
    | inl n ↦ simp (l, e, n) refl
    | inr n ↦ simp (l, e, n) refl
  ]
]
get_tx_buffer_2020-get_tx_buffer sn1 w pkt rest e = elim (Bool-cases w.priv1.locked) [
  | inl l ↦ simp l refl
  | inr l ↦ elim (Bool-cases (is_nil rest)) [
    | inl n ↦ simp (l, e, n) refl
    | inr n ↦ simp (l, e, n) refl
  ]
]

module _ (env : Env) (regular : env.use_napi ≡ false) where
  interrupts : (d : DevId) → interrupt_2020 env d ≡ interrupt env d
  unfolding interrupt_2020 interrupt
  interrupts d = rw regular refl

  signals_rx : (d : DevId) → signal_rx_2020 env d ≡ signal_rx env d
  unfolding signal_rx_2020 signal_rx
  signals_rx d = rw (interrupts d) refl

  signals_tx :
      (d : DevId) (buf : List ℕ) (len : ℕ) → signal_tx_2020 env d buf len ≡ signal_tx env d buf len
  unfolding signal_tx_2020 signal_tx
  signals_tx d buf len = rw (interrupts d) refl

  -- What both do with the packet they got.
  sends :
      (sent : List ℕ) (len : ℕ) (d : DevId) (pkt : Packet)
      → send_buffer env sent len d (some pkt) ≡ (do
        filled ← fill env pkt sent len
        enqueue_buf (twin d) filled
        signal_rx env (twin d)
        signal_tx env d sent len)
  unfolding send_buffer
  sends sent len d pkt = rw (signals_rx (twin d), signals_tx d sent len) refl

  hw_tx_2020-hw_tx :
      (buf : List ℕ) (len : ℕ) (d : DevId) (w : World) (pkt : Packet) (rest : List Packet)
      → (priv w d).ppool ≡ pkt ∷ rest
      → hw_tx_2020 env buf len d w ≡ hw_tx env buf len d w
  unfolding hw_tx_2020 hw_tx
  hw_tx_2020-hw_tx buf len d w pkt rest e = elim (Bool-cases (ltb len 34)) [
    | inl short ↦ rw short refl
    | inr long ↦
        let sent : List ℕ = rewrite_frame env buf in
        rw long (
          ap (λ r. and_then r (send_buffer env sent len d))
            (get_tx_buffer_2020-get_tx_buffer d w pkt rest e)
          ∙ and_then_assoc (get_tx_buffer d w) (λ p. pure (some p)) (send_buffer env sent len d)
          ∙ ap (λ f. and_then (get_tx_buffer d w) f) (fun_ext λ p. sends sent len d p))
  ]

-- Without NAPI, from every state in which the pool has a packet, the version of 2020 transmits any socket buffer with
-- the same outcome as snull/snull.c would behind a call of netif_trans_update, which only the former makes: the same
-- states of both devices and the same calls of the kernel, or the same fault.
pub tx_2020-tx :
    (env : Env) (skb : Skb) (d : DevId) (w : World) (pkt : Packet) (rest : List Packet)
    → env.use_napi ≡ false
    → (priv w d).ppool ≡ pkt ∷ rest
    → tx_2020 env skb d w ≡ (call (Call.netif_trans_update d) >> tx env skb d) w
unfolding tx_2020 tx
tx_2020-tx env skb sn0 w pkt rest regular e =
    ap (λ r. and_then r λ _. pure 0) (hw_tx_2020-hw_tx env regular _ _ sn0 _ pkt rest e)
tx_2020-tx env skb sn1 w pkt rest regular e =
    ap (λ r. and_then r λ _. pure 0) (hw_tx_2020-hw_tx env regular _ _ sn1 _ pkt rest e)
