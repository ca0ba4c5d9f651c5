-- ===== src/LinkedList/Echo/Roundtrip.antt =====
-- linkedlist/linkedlist_platform.c: a write to a rewound device and the read after it.
use raspberrypimodules.Prelude.{
  ℕ, ◌+◌, ◌≤◌, ◌<◌, ◌≡◌, refl, ◌∙◌, ap, Bool, List, some, arith, length, take, drop, nth-set,
  take-append, nth-set_other, length-append, length-drop,
}
use raspberrypimodules.Prelude.Errno.{Ret}
use raspberrypimodules.LinkedList.Device.{Node, State, write, read, advance_read, rewind}
use raspberrypimodules.LinkedList.Ring.{Block, Sound}
use raspberrypimodules.LinkedList.Contents.{take_full}
use raspberrypimodules.LinkedList.Contents.Write.{Complete}
use raspberrypimodules.Prelude.Options.{◌>>=◌}
use raspberrypimodules.Prelude.Words.{int_add}
use raspberrypimodules.LinkedList.Echo.{
  prefixed, holding, advance_first, Sends, advance_read_first, advance_read_full, advance_full,
  first_write, read_first,
}

length-prefixed :
    (node : Node) (new : List ℕ)
    → length node.buffer ≡ 5
    → length new ≤ 5
    → length (prefixed node new).buffer ≡ 5
length-prefixed node new room short = omega (
  arith,
  length-append new (drop (0 + length new) node.buffer),
  length-drop (0 + length new) node.buffer,
)

module _ (copy_from_user : List ℕ → List ℕ → List ℕ × Bool) (complete : Complete copy_from_user)
    (copy_to_user : ℕ → List ℕ → Bool) (sends : Sends copy_to_user) where
  -- On a rewound device, with copies that succeed, what a write of one to four bytes stores is what
  -- the next read from the start of the file returns.
  pub write-read :
      (s : State) (new : List ℕ)
      → Sound s
      → 0 < length new
      → length new < 5
      → (t : State) × (u : State) × (write copy_from_user (rewind s) new 0
          ≡ some (Ret.value (length new), t, length new))
        × (read copy_to_user t 0 ≡ some (Ret.value (length new), new, u, length new))
  write-read s new i lo hi =
      let b = i.blocks 0 (omega arith) in
      let v : Node = prefixed b.node new in
      let t : State = record (holding s b.node new) { cur_write_offset = length new } in
      let whole : take (length new) v.buffer ≡ new =
        take-append new (drop (0 + length new) b.node.buffer) in
      (
        t,
        record t { cur_read_offset = length new },
        first_write copy_from_user complete s b.node new i.starts_at b.found b.room (omega arith)
            ∙ ap (λ x. some (Ret.value (length new), x, length new))
                (advance_first (holding s b.node new) b.node.next (length new) refl hi),
        read_first copy_to_user sends t 0 v (length new) (record {
          at = i.starts_at;
          found = nth-set s.mem 0 b.node v b.found;
          room = length-prefixed b.node new b.room (omega arith);
          size = refl;
          count = refl;
          offset = refl;
          some_bytes = lo;
          one_block = omega arith;
        })
            ∙ ap
                (λ m. m >>= λ u.
                  some (Ret.value (length new), take (length new) v.buffer, u, length new))
                (advance_read_first t (length new) refl hi)
            ∙ ap
                (λ l. some (
                  Ret.value (length new),
                  l,
                  record t { cur_read_offset = length new },
                  length new,
                ))
                whole,
      )

  -- With five bytes the read that follows does not return them: it returns what the second block held,
  -- whatever was written.
  write-read_full :
      (s : State) (new : List ℕ) (second : Block s.mem 1)
      → Sound s
      → length new ≡ 5
      → (t : State) × (u : State) × (write copy_from_user (rewind s) new 0
          ≡ some (Ret.value 5, t, 5))
        × (read copy_to_user t 0 ≡ some (Ret.value 5, second.node.buffer, u, 5))
  write-read_full s new c i full =
      let b = i.blocks 0 (omega arith) in
      let h = holding s b.node new in
      let t : State = record h {
        cur_write_node = b.node.next;
        cur_write_offset = 0;
        node_count = 2;
      } in
      let u : State = record t {
        cnt = int_add 0 1;
        cur_read_node = b.node.next;
        cur_read_offset = 0;
      } in
      let read_on : advance_read t 5 ≡ some u =
        advance_read_full t 5 0 (prefixed b.node new) refl refl i.starts_at
          (nth-set s.mem 0 b.node (prefixed b.node new) b.found) in
      (
        t,
        u,
        first_write copy_from_user complete s b.node new i.starts_at b.found b.room (omega arith)
            ∙ ap (λ x. some (Ret.value (length new), x, length new))
                (advance_full h b.node.next (length new) refl full refl)
            ∙ ap (λ n. some (Ret.value n, t, n)) full,
        read_first copy_to_user sends t 1 c.node 5 (record {
          at = b.link;
          found = nth-set_other s.mem 0 1 (prefixed b.node new) (omega arith) ∙ c.found;
          room = c.room;
          size = full;
          count = refl;
          offset = refl;
          some_bytes = omega arith;
          one_block = omega arith;
        })
            ∙ ap (λ m. m >>= λ v. some (Ret.value 5, take 5 c.node.buffer, v, 5)) read_on
            ∙ ap (λ l. some (Ret.value 5, l, u, 5))
                (take_full c.node.buffer 5 (omega (arith, c.room))),
      )
