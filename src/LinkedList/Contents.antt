-- ===== src/LinkedList/Contents.antt =====
-- linkedlist/linkedlist_platform.c: what the ring holds, in the order of the writes.
pub mod Write
use raspberrypimodules.Prelude.{
  subst, ◌≢◌, false, ℕ, zero, suc, ◌+◌, ◌≤◌, ◌<◌, ◌≡◌, refl, sym, ◌∙◌, ap, true, inl, inr, List, [],
  ◌∷◌, ◌++◌, Option, none, some, arith, ◌==◌, ltb, length, take, drop, set, nth, take-append,
  nth-set, length-take, length-drop, length-append, Bool-cases, append-nil, append_assoc, le→ltb,
  Bool,
}
use raspberrypimodules.Prelude.Errno.{Ret}
use raspberrypimodules.LinkedList.Device.{
  Node, State, write, write_node, write_size, advance_write, next_block,
}
use raspberrypimodules.LinkedList.Ring.{Sound, after, count_size_form, write_size_fits}
use raspberrypimodules.LinkedList.Ring.Calls.{write_step}

-- The bytes of the first k blocks.
abbrev pub blocks_bytes : ℕ → List Node → List ℕ
blocks_bytes zero mem = []
blocks_bytes (suc k) [] = []
blocks_bytes (suc k) (node ∷ mem) = node.buffer ++ blocks_bytes k mem

abbrev pub buffer_of : Option Node → List ℕ
buffer_of none = []
buffer_of (some node) = node.buffer

abbrev pub written_to : Option ℕ → ℕ → List Node → List ℕ
written_to none off mem = []
written_to (some p) off mem = blocks_bytes p mem ++ take off (buffer_of (nth mem p))

-- The bytes from the first block up to the place of the writer.
abbrev pub written : State → List ℕ
written s = written_to s.cur_write_node s.cur_write_offset s.mem

blocks_set :
    (p : ℕ) (mem : List Node) (v : Node) → blocks_bytes p (set mem p v) ≡ blocks_bytes p mem
blocks_set zero mem v = refl
blocks_set (suc p) [] v = refl
blocks_set (suc p) (n ∷ mem) v = ap (λ l. n.buffer ++ l) (blocks_set p mem v)

blocks_suc :
    (p : ℕ) (mem : List Node) (v : Node)
    → nth mem p ≡ some v
    → blocks_bytes (suc p) mem ≡ blocks_bytes p mem ++ v.buffer
blocks_suc p [] v h = cc
blocks_suc zero (n ∷ mem) v h = append-nil n.buffer ∙ ap buffer_of h
blocks_suc (suc p) (n ∷ mem) v h =
    ap (λ l. n.buffer ++ l) (blocks_suc p mem v h)
    ∙ sym (append_assoc n.buffer (blocks_bytes p mem) v.buffer)

take_stored : (a b c : List ℕ) (k : ℕ) → length a + length b ≡ k → take k (a ++ (b ++ c)) ≡ a ++ b
take_stored a b c k h =
    subst (λ m. take m (a ++ (b ++ c)) ≡ a ++ b) (length-append a b ∙ h)
      (ap (take (length (a ++ b))) (sym (append_assoc a b c)) ∙ take-append (a ++ b) c)

-- The bytes of the writer's block after a copy of `new` at its offset.
abbrev pub stored : List ℕ → ℕ → List ℕ → List ℕ
stored old off new = take off old ++ (new ++ drop (off + length new) old)

-- Where the writer stands after n bytes.
part_written :
    (s : State) (next : Option ℕ) (n : ℕ)
    → ((s.cur_write_offset + n) == 5) ≡ false
    → written (advance_write s next n) ≡ written_to s.cur_write_node (s.cur_write_offset + n) s.mem
unfolding advance_write
part_written s next n e = rw e refl

full_written :
    (s : State) (next : Option ℕ) (n : ℕ)
    → ((s.cur_write_offset + n) == 5) ≡ true
    → written (advance_write s next n) ≡ written_to next 0 s.mem
unfolding advance_write next_block
full_written s next n e = elim (Bool-cases (ltb 10 (s.node_count + 1))) [
  | inl f ↦ rw (e, f) refl
  | inr f ↦ rw (e, f) refl
]

length_part :
    (old new : List ℕ) (off : ℕ)
    → length old ≡ 5
    → off + length new ≤ 5
    → length (take off old) + length new ≡ off + length new
length_part old new off room fits = omega (arith, length-take off old)

pub take_full : (l : List ℕ) (n : ℕ) → length l ≤ n → take n l ≡ l
take_full [] zero h = refl
take_full [] (suc n) h = refl
take_full (x ∷ l) zero h = absurd (omega arith)
take_full (x ∷ l) (suc n) h = ap (λ m. x ∷ m) (take_full l n (omega arith))

-- Filled to its end, the block is what was there and what is new.
stored_full :
    (old new : List ℕ) (off : ℕ)
    → length old ≡ 5
    → off + length new ≡ 5
    → stored old off new ≡ take off old ++ new
stored_full old new off room full =
    sym (
      take_full (stored old off new) 5 (
        omega (
          arith,
          length-append (take off old) (new ++ drop (off + length new) old),
          length-append new (drop (off + length new) old),
          length-take off old,
          length-drop (off + length new) old,
        )))
    ∙ take_stored (take off old) new (drop (off + length new) old) 5
        (length_part old new off room (omega arith) ∙ full)

after_suc : (p : ℕ) → p ≢ 9 → after p ≡ p + 1
after_suc p h = ground arith

-- New bytes in the writer's block, which may then be full, stand behind the ones before.
pub written_advance :
    (s : State) (p : ℕ) (node : Node) (new : List ℕ)
    → nth s.mem p ≡ some node
    → s.cur_write_node ≡ some p
    → length node.buffer ≡ 5
    → s.cur_write_offset + length new ≤ 5
    → (p ≡ 9 → s.cur_write_offset + length new < 5)
    → written (
        advance_write
          (record s {
            mem =
                set s.mem p
                  (record { buffer = stored node.buffer s.cur_write_offset new; next = node.next });
          })
          (some (after p))
          (length new))
      ≡ blocks_bytes p s.mem ++ (take s.cur_write_offset node.buffer ++ new)
written_advance s p node new found at room fits last =
    let off = s.cur_write_offset in
    let v : Node = record { buffer = stored node.buffer off new; next = node.next } in
    let t : State = record s { mem = set s.mem p v } in
    let here = nth-set s.mem p node v found in
    let one : p + 1 ≡ suc p = omega arith in
    elim (Bool-cases ((off + length new) == 5)) [
      | inr e ↦
          part_written t (some (after p)) (length new) e
          ∙ ap (λ c. written_to c (off + length new) t.mem) at
          ∙ ap (λ l. l ++ take (off + length new) (buffer_of (nth t.mem p))) (blocks_set p s.mem v)
          ∙ ap (λ l. blocks_bytes p s.mem ++ l)
              (ap (λ x. take (off + length new) (buffer_of x)) here
                ∙ take_stored (take off node.buffer) new (drop (off + length new) node.buffer) _
                    (length_part node.buffer new off room fits))
      | inl e ↦
          full_written t (some (after p)) (length new) e
          ∙ ap (λ c. blocks_bytes c t.mem ++ []) (after_suc p (λ h. ground (arith, last h)))
          ∙ append-nil _
          ∙ ap (λ c. blocks_bytes c t.mem) one
          ∙ blocks_suc p t.mem v here
          ∙ ap (λ l. l ++ v.buffer) (blocks_set p s.mem v)
          ∙ ap (λ l. blocks_bytes p s.mem ++ l)
              (stored_full node.buffer new off room (ground arith))
    ]
