-- ===== src/LinkedList/Ring.antt =====
-- linkedlist/linkedlist_platform.c: the ring of blocks, which no call leaves or overruns.
pub mod Calls
use raspberrypimodules.Prelude.{
  subst, ◌||◌, not, ℕ, zero, suc, ◌+◌, ◌-◌, ◌≤◌, ◌<◌, ◌≡◌, refl, sym, ◌∙◌, ap, Bool, true, false,
  ◌⊎◌, inl, inr, List, [], ◌∷◌, ◌++◌, Option, none, some, arith, ◌==◌, ltb, if◌then◌else◌, length,
  take, drop, set, nth, min, le→ltb, length-take, length-drop, length-append, length-set,
  Bool-cases, nth-set, nth-set_other,
}
use raspberrypimodules.Prelude.Errno.{Ret, Errno}
use raspberrypimodules.Prelude.Words.{negative, int_add, below_int}
use raspberrypimodules.Prelude.Options.{◌>>=◌}
use raspberrypimodules.LinkedList.Device.{
  Node, State, write, write_node, write_size, count_size, advance_write, next_block, read,
  read_node, advance_read, read_size, rewind,
}

-- The place behind i on the ring.
abbrev pub after : ℕ → ℕ
after i = if i == 9 then 0 else i + 1

-- A block of five bytes that points to the next place.
pub record Block (mem : List Node) (i : ℕ) : Type 0 where
  pub node : Node
  pub found : nth mem i ≡ some node
  pub room : length node.buffer ≡ 5
  pub link : node.next ≡ some (after i)

-- Ten blocks in a ring, and a writer and a reader inside their blocks.
pub record Sound (s : State) : Type 0 where
  pub blocks : (i : ℕ) → i < 10 → Block s.mem i
  pub w : ℕ
  pub r : ℕ
  pub w_in : w < 10
  pub r_in : r < 10
  pub writes_at : s.cur_write_node ≡ some w
  pub reads_at : s.cur_read_node ≡ some r
  pub starts_at : s.head ≡ some 0
  pub write_room : s.cur_write_offset < 5
  pub read_room : s.cur_read_offset < 5

set_here :
    (mem : List Node) (p : ℕ) (bytes : List ℕ) (node : Node)
    → nth mem p ≡ some node
    → node.next ≡ some (after p)
    → length bytes ≡ 5
    → Block (set mem p (record { buffer = bytes; next = node.next })) p
set_here mem p bytes node found link room = record {
  node = record { buffer = bytes; next = node.next };
  found = nth-set mem p node _ found;
  room = room;
  link = link;
}

-- New bytes in one block leave all blocks in the ring.
set-Block :
    (mem : List Node) (p : ℕ) (bytes : List ℕ) (node : Node)
    → nth mem p ≡ some node
    → node.next ≡ some (after p)
    → length bytes ≡ 5
    → (i : ℕ) → Block mem i
    → Block (set mem p (record { buffer = bytes; next = node.next })) i
set-Block mem p bytes node found link room i b = elim (Bool-cases (i == p)) [
  | inl e ↦
      let same : i ≡ p = ground arith in
      subst (Block (set mem p (record { buffer = bytes; next = node.next }))) (sym same)
        (set_here mem p bytes node found link room)
  | inr e ↦ record {
    node = b.node;
    found = nth-set_other mem p i _ (ground arith) ∙ b.found;
    room = b.room;
    link = b.link;
  }
]

pub after_in : (i : ℕ) → i < 10 → after i < 10
after_in i h = ground arith

-- The writer stands at the block p, which is this node.
pub record Writes (s : State) (p : ℕ) (node : Node) : Type 0 where
  pub at : s.cur_write_node ≡ some p
  pub inside : p < 10
  pub found : nth s.mem p ≡ some node
  pub room : length node.buffer ≡ 5
  pub link : node.next ≡ some (after p)

pub advance_write-Sound :
    (s : State) (n : ℕ) {p : ℕ}
    → Sound s
    → p < 10
    → s.cur_write_offset + n ≤ 5
    → Sound (advance_write s (some (after p)) n)
unfolding advance_write next_block
advance_write-Sound s n {p} i inside h = elim (Bool-cases ((s.cur_write_offset + n) == 5)) [
  | inr e ↦ rw e (record {
    blocks = i.blocks;
    w = i.w;
    r = i.r;
    w_in = i.w_in;
    r_in = i.r_in;
    writes_at = i.writes_at;
    reads_at = i.reads_at;
    starts_at = i.starts_at;
    write_room = ground arith;
    read_room = i.read_room;
  })
  | inl e ↦ rw e (elim (Bool-cases (ltb 10 (s.node_count + 1))) [
    | inl f ↦ rw f (record {
      blocks = i.blocks;
      w = after p;
      r = after p;
      w_in = after_in p inside;
      r_in = after_in p inside;
      writes_at = refl;
      reads_at = refl;
      starts_at = i.starts_at;
      write_room = omega arith;
      read_room = omega arith;
    })
    | inr f ↦ rw f (record {
      blocks = i.blocks;
      w = after p;
      r = i.r;
      w_in = after_in p inside;
      r_in = i.r_in;
      writes_at = refl;
      reads_at = i.reads_at;
      starts_at = i.starts_at;
      write_room = omega arith;
      read_room = i.read_room;
    })
  ])
]

-- Another number of bytes to read.
pub size_to_read-Sound : (s : State) (z : ℕ) → Sound s → Sound (record s { size_to_read = z })
size_to_read-Sound s z i = record {
  blocks = i.blocks;
  w = i.w;
  r = i.r;
  w_in = i.w_in;
  r_in = i.r_in;
  writes_at = i.writes_at;
  reads_at = i.reads_at;
  starts_at = i.starts_at;
  write_room = i.write_room;
  read_room = i.read_room;
}

-- Counting touches that number only.
pub count_size_form :
    (s : State) (size offset : ℕ)
    → (z : ℕ) × (count_size s size offset ≡ record s { size_to_read = z })
unfolding count_size
count_size_form s size offset = elim (Bool-cases ((offset == 0) || (s.node_count == 1))) [
  | inl e ↦ (int_add s.size_to_read size, rw e refl)
  | inr e ↦ (s.size_to_read, rw e refl)
]

pub write_size_fits :
    (s : State) (size : ℕ) → s.cur_write_offset < 5 → s.cur_write_offset + write_size s size ≤ 5
write_size_fits s size h = ground arith

pub length_stored :
    (old region : List ℕ) (off n : ℕ)
    → length old ≡ 5
    → off + n ≤ 5
    → length region ≡ length (take n (drop off old))
    → length (take off old ++ (region ++ drop (off + n) old)) ≡ 5
length_stored old region off n room fits same = omega (
  arith,
  length-append (take off old) (region ++ drop (off + n) old),
  length-append region (drop (off + n) old),
  length-take off old,
  length-take n (drop off old),
  length-drop off old,
  length-drop (off + n) old,
)

-- New bytes in the block of the writer.
pub store-Sound :
    (s : State) (p : ℕ) (node : Node) (bytes : List ℕ)
    → Sound s
    → Writes s p node
    → length bytes ≡ 5
    → Sound (record s { mem = set s.mem p (record { buffer = bytes; next = node.next }) })
store-Sound s p node bytes i at room = record {
  blocks = λ j h. set-Block s.mem p bytes node at.found at.link room j (i.blocks j h);
  w = i.w;
  r = i.r;
  w_in = i.w_in;
  r_in = i.r_in;
  writes_at = i.writes_at;
  reads_at = i.reads_at;
  starts_at = i.starts_at;
  write_room = i.write_room;
  read_room = i.read_room;
}

-- A call that ends without a fault in a sound state.
abbrev pub Kept : Option State → Type 0
Kept none = ⊥
Kept (some t) = Sound t
