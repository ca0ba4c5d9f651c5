-- ===== src/LinkedList/Echo.antt =====
-- linkedlist/linkedlist_platform.c: a write to a rewound device, and the read after it.
pub mod Roundtrip
use raspberrypimodules.Prelude.{
  ℕ, ◌+◌, ◌≤◌, ◌<◌, ◌≡◌, refl, ◌∙◌, ap, Bool, true, false, List, ◌++◌, Option, some, arith, ◌==◌,
  length, take, drop, set, nth, le→ltb, nth-set, take-append, take-all, ◌%◌, nth-set_other,
  length-take, length-append, length-drop,
}
use raspberrypimodules.Prelude.Errno.{Ret}
use raspberrypimodules.LinkedList.Device.{
  Node, State, write, write_node, write_size, count_size, advance_write, next_block, read,
  read_node, advance_read, read_size, rewind, read_value,
}
use raspberrypimodules.LinkedList.Ring.{Block, Sound}
use raspberrypimodules.LinkedList.Ring.Calls.{write_step, read_step}
use raspberrypimodules.LinkedList.Contents.Write.{Complete, write_node_lem}
use raspberrypimodules.Prelude.Options.{◌>>=◌}
use raspberrypimodules.Prelude.Words.{int_mod, int_add, below_int}

-- The writer's block with these first bytes.
abbrev pub prefixed : Node → List ℕ → Node
prefixed node new = record {
  buffer = take 0 node.buffer ++ (new ++ drop (0 + length new) node.buffer);
  next = node.next;
}

-- A rewound device that counts z bytes to read.
abbrev counting : State → ℕ → State
counting s z = record (rewind s) { size_to_read = z }

abbrev pub holding : State → Node → List ℕ → State
holding s node new = record (counting s (length new)) { mem = set s.mem 0 (prefixed node new) }

count_first : (s : State) (n : ℕ) → n ≤ 5 → count_size (rewind s) n 0 ≡ counting s n
unfolding count_size
count_first s n h = let same : (0 + n) % int_mod ≡ n = omega arith in ap (counting s) same

write_size_first : (s : State) (n : ℕ) → n ≤ 5 → write_size (rewind s) n ≡ n
write_size_first s n h = ground arith

pub advance_first :
    (s : State) (next : Option ℕ) (n : ℕ)
    → s.cur_write_offset ≡ 0
    → n < 5
    → advance_write s next n ≡ record s { cur_write_offset = n }
unfolding advance_write
advance_first s next n z h =
    let sum : s.cur_write_offset + n ≡ n = omega arith in
    let part : (n == 5) ≡ false = ground arith in rw (sum, part) refl

module _ (copy_from_user : List ℕ → List ℕ → List ℕ × Bool)
    (complete : Complete copy_from_user) where
  -- The copy of a write to a rewound device.
  pub first_write :
      (s : State) (node : Node) (new : List ℕ)
      → s.head ≡ some 0
      → nth s.mem 0 ≡ some node
      → length node.buffer ≡ 5
      → length new ≤ 5
      → write copy_from_user (rewind s) new 0
        ≡ some (
          Ret.value (length new),
          advance_write (holding s node new) node.next (length new),
          length new,
        )
  first_write s node new at found room short =
      write_step copy_from_user (rewind s) 0 node new 0 at found
      ∙ ap (λ c. write_node copy_from_user c 0 node new (write_size (rewind s) (length new)) 0)
          (count_first s (length new) short)
      ∙ ap (λ n. write_node copy_from_user (counting s (length new)) 0 node new n 0)
          (write_size_first s (length new) short)
      ∙ write_node_lem copy_from_user complete (counting s (length new)) 0 node new new 0 room
          (omega arith) (take-all new)
      ∙ ap
          (λ o.
            some (
              Ret.value (length new),
              advance_write (holding s node new) node.next (length new),
              o,
            ))
          (omega arith)

-- Copies to the user that succeed.
abbrev pub Sends : (ℕ → List ℕ → Bool) → Type 0
Sends copy_to_user = (n : ℕ) (src : List ℕ) → length src ≡ n → copy_to_user n src ≡ true

-- A device with n bytes to read of which none was read, and the writer at the block p, which is this
-- node.
pub record Unread (t : State) (p : ℕ) (node : Node) (n : ℕ) : Type 0 where
  pub at : t.cur_write_node ≡ some p
  pub found : nth t.mem p ≡ some node
  pub room : length node.buffer ≡ 5
  pub size : t.size_to_read ≡ n
  pub count : t.cnt ≡ 0
  pub offset : t.cur_read_offset ≡ 0
  pub some_bytes : 0 < n
  pub one_block : n ≤ 5

read_size_first :
    (t : State) (n : ℕ)
    → t.size_to_read ≡ n
    → t.cnt ≡ 0
    → t.cur_read_offset ≡ 0
    → n ≤ 5
    → read_size t ≡ n
read_size_first t n size count offset le =
    let value : read_value t ≡ n = omega arith in ground arith

more_bytes : (n : ℕ) → 0 < n → n ≤ 5 → below_int 0 n ≡ true
more_bytes n lo hi = ground arith

length_taken : (n : ℕ) (l : List ℕ) → length l ≡ 5 → n ≤ 5 → length (take n l) ≡ n
length_taken n l room le = omega (arith, length-take n l)

module _ (copy_to_user : ℕ → List ℕ → Bool) (sends : Sends copy_to_user) where
  read_node_first :
      (t : State) (p : ℕ) (node : Node) (n : ℕ)
      → Unread t p node n
      → read_node copy_to_user t node n 0
        ≡ (advance_read t n >>= λ u. some (Ret.value n, take n node.buffer, u, n))
  unfolding read_node
  read_node_first t p node n r =
      let sent : copy_to_user n (take n node.buffer) ≡ true =
        sends n (take n node.buffer) (length_taken n node.buffer r.room r.one_block) in
      let zero_first : 0 + n ≡ n = omega arith in
      simp (r.offset, sent, r.room, zero_first, le→ltb 5 n r.one_block) refl

  pub read_first :
      (t : State) (p : ℕ) (node : Node) (n : ℕ)
      → Unread t p node n
      → read copy_to_user t 0
        ≡ (advance_read t n >>= λ u. some (Ret.value n, take n node.buffer, u, n))
  read_first t p node n r =
      let more : below_int 0 t.size_to_read ≡ true =
        rw (r.size) (more_bytes n r.some_bytes r.one_block) in
      read_step copy_to_user t p node 0 more r.at r.found
      ∙ ap (λ m. read_node copy_to_user t node m 0)
          (read_size_first t n r.size r.count r.offset r.one_block)
      ∙ read_node_first t p node n r

pub advance_read_first :
    (t : State) (n : ℕ)
    → t.cur_read_offset ≡ 0
    → n < 5
    → advance_read t n ≡ some (record t { cur_read_offset = n })
unfolding advance_read
advance_read_first t n z h =
    let sum : t.cur_read_offset + n ≡ n = omega arith in
    let part : (n == 5) ≡ false = ground arith in rw (sum, part) refl

-- The end of a block that is read from its start.
pub advance_read_full :
    (t : State) (n r : ℕ) (node : Node)
    → t.cur_read_offset ≡ 0
    → n ≡ 5
    → t.cur_read_node ≡ some r
    → nth t.mem r ≡ some node
    → advance_read t n
      ≡ some (record t { cnt = int_add t.cnt 1; cur_read_node = node.next; cur_read_offset = 0 })
unfolding advance_read
advance_read_full t n r node z full at found =
    let sum : t.cur_read_offset + n ≡ 5 = omega arith in simp (sum, at, found) refl

-- The end of a block that is written from its start, in the first round.
pub advance_full :
    (s : State) (next : Option ℕ) (n : ℕ)
    → s.cur_write_offset ≡ 0
    → n ≡ 5
    → s.node_count ≡ 1
    → advance_write s next n
      ≡ record s { cur_write_node = next; cur_write_offset = 0; node_count = 2 }
unfolding advance_write next_block
advance_full s next n z full one =
    let sum : s.cur_write_offset + n ≡ 5 = omega arith in simp (sum, one) refl
