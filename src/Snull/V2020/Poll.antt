-- ===== src/Snull/V2020/Poll.antt =====
-- snull/snull_3dec2020.c: the NAPI poll.
use raspberrypimodules.Prelude.{
  ℕ, zero, suc, ◌+◌, ◌-◌, ◌≤◌, ◌<◌, ◌≡◌, ◌&&◌, ◌||◌, not, Bool, true, false, some, inl, inr, arith,
  Bool-cases, length, is_nil, ltb, min,
}
use raspberrypimodules.Snull.Types.{DevId, sn0, sn1, Env, World, priv}
use raspberrypimodules.Snull.Receive.{poll_next, rx_ints}
use raspberrypimodules.Snull.Inv.{Inv}
use raspberrypimodules.Snull.Inv.Poll.{
  Queued, dequeue-Polled, poll_packet-Polled, queue_empty, queue_more, twin_count,
}
use raspberrypimodules.Snull.Returns
use raspberrypimodules.Snull.Returns.{Returns, returns}
use raspberrypimodules.Snull.V2020.{poll_loop_2020, poll_end_2020, poll_2020}

module _ (env : Env) {n k k' : ℕ} where
  poll_loop_2020-Inv :
      (fuel : ℕ) {n' : ℕ} {w : World} (d : DevId) (budget np q : ℕ)
      → Inv env d n k n' k' w
      → Queued d q w
      → q < fuel
      → np ≤ budget
      → Returns
          (λ r v. Inv env d n k n' k' v × (r ≡ min budget (np + q)) × Queued d (np + q - budget) v)
          (poll_loop_2020 env fuel d d budget np w)
  unfolding poll_loop_2020 poll_next
  poll_loop_2020-Inv zero d budget np q i e lt le = absurd (omega arith)
  poll_loop_2020-Inv (suc fuel) {w} d budget np zero i e lt le =
      let empty : not (is_nil (priv w d).rx_queue) ≡ false = queue_empty w d e in
      elim (Bool-cases (ltb np budget)) [
        | inl c ↦ rw (c, empty) (returns (i, omega arith, (omega (arith, e.0), e.1)))
        | inr c ↦ rw c (returns (i, ground arith, (ground arith, e.1)))
      ]
  poll_loop_2020-Inv (suc fuel) {n' = zero} {w} d budget np (suc q) i e lt le =
      absurd (twin_count env d q i e)
  poll_loop_2020-Inv (suc fuel) {n' = suc m} {w} d budget np (suc q) i e lt le =
      let more : not (is_nil (priv w d).rx_queue) ≡ true = queue_more w d q e in
      elim (Bool-cases (ltb np budget)) [
        | inr c ↦ rw c (returns (i, ground arith, (ground arith, e.1)))
        | inl c ↦
            rw (c, more)
              (Returns.bind (dequeue-Polled env d q i e) λ o v (pkt, got, ow, i1, e1). rw got (
                Returns.bind (poll_packet-Polled env d pkt q i1 ow e1) λ b v2 (i2, e2).
                  Returns.mono
                    (poll_loop_2020-Inv fuel d budget (np + 1) q i2 e2 (omega arith) (ground arith))
                    λ r v3 (i3, h, e3). (i3, omega (arith, h), (omega (arith, e3.0), e3.1))))
      ]

-- What the poll of a queue of `q` packets leaves: the result counts those that are taken, and if that is
-- all, and `napi_complete_done` says so, receive interrupts are enabled.
abbrev pub Polled2020 : (done : Bool) → DevId → (budget q : ℕ) → ℕ → World → Type 0
Polled2020 done d budget q r w =
    (r ≡ min budget q)
    × (length (priv w d).rx_queue ≡ q - budget)
    × ((not (done && ltb q budget) || (priv w d).rx_int_enabled) ≡ true)

module _ (env : Env) {n n' : ℕ} where
  poll_end_2020-Inv :
      {w : World} (done : Bool) (d : DevId) (budget np q : ℕ)
      → Inv env d n 0 n' 0 w
      → np ≡ min budget q
      → length (priv w d).rx_queue ≡ q - budget
      → Returns
          (λ r v. Inv env d n 0 n' 0 v × Polled2020 done d budget q r v)
          (poll_end_2020 env done d d budget np w)
  unfolding poll_end_2020 rx_ints
  poll_end_2020-Inv {w} true sn0 budget np q (s, t) h e = elim (Bool-cases (ltb np budget)) [
    | inr c ↦ rw c (returns ((s, t), ground arith))
    | inl c ↦ simp (c, s.lock) (returns (ground arith, ground arith))
  ]
  poll_end_2020-Inv {w} true sn1 budget np q (s, t) h e = elim (Bool-cases (ltb np budget)) [
    | inr c ↦ rw c (returns ((s, t), ground arith))
    | inl c ↦ simp (c, s.lock) (returns (ground arith, ground arith))
  ]
  poll_end_2020-Inv {w} false sn0 budget np q (s, t) h e = elim (Bool-cases (ltb np budget)) [
    | inr c ↦ rw c (returns ((s, t), ground arith))
    | inl c ↦ simp (c, s.lock) (returns (ground arith, ground arith))
  ]
  poll_end_2020-Inv {w} false sn1 budget np q (s, t) h e = elim (Bool-cases (ltb np budget)) [
    | inr c ↦ rw c (returns ((s, t), ground arith))
    | inl c ↦ simp (c, s.lock) (returns (ground arith, ground arith))
  ]

  -- The poll of a device that is recorded, with `q` packets queued, ends without a fault within its fuel
  -- and keeps the invariant: it takes as many packets as the budget allows, counts them all, and leaves
  -- the others; if the budget is more than `q` and `napi_complete_done` says that the poll is over,
  -- receive interrupts are enabled.
  pub poll_2020-Inv :
      {w : World} (done : Bool) (d : DevId) (budget q : ℕ)
      → Inv env d n 0 n' 0 w
      → (priv w d).dev ≡ some d
      → length (priv w d).rx_queue ≡ q
      → Returns
          (λ r v. Inv env d n 0 n' 0 v × Polled2020 done d budget q r v)
          (poll_2020 env done d d budget w)
  unfolding poll_2020
  poll_2020-Inv {w} done d budget q i known e =
      Returns.bind
        (poll_loop_2020-Inv env (length (priv w d).rx_queue + 1) d budget 0 q i (e, known)
          (omega arith) (omega arith))
        λ np v (i1, h, e1).
          poll_end_2020-Inv done d budget np q i1 (omega arith) (omega (arith, e1.0))
