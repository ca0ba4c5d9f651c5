-- ===== src/LinkedList/Device.antt =====
-- linkedlist/linkedlist_platform.c: the state, and the calls of the platform driver and the device.
use raspberrypimodules.Prelude.{
  ℕ, zero, suc, ◌+◌, ◌-◌, Bool, true, false, not, ◌||◌, List, [], ◌∷◌, ◌++◌, Option, none, some,
  ◌==◌, ltb, if◌then◌else◌, length, take, drop, set, nth,
}
use raspberrypimodules.Prelude.Errno.{Ret, Errno}
use raspberrypimodules.Prelude.Options.{◌>>=◌}
use raspberrypimodules.Prelude.Words.{int_add, int_sub, int_mul, int_lt, below_int}

-- `struct dnode`; a pointer is the number of the node in memory, or NULL.
pub record Node : Type 0 where
  pub buffer : List ℕ
  pub next : Option ℕ

-- The nodes in the order of their allocation, `newlist`, and the counters of the module.
pub record State : Type 0 where
  pub mem : List Node
  pub head : Option ℕ
  pub cur_write_node : Option ℕ
  pub cur_read_node : Option ℕ
  pub cur_read_offset : ℕ
  pub cur_write_offset : ℕ
  pub size_to_read : ℕ
  pub node_count : ℕ
  pub cnt : ℕ

abbrev pub block_number : ℕ
block_number = 10

abbrev pub block_size : ℕ
block_size = 5

-- The static initial values.
abbrev pub initial : State
initial = record {
  mem = [];
  head = none;
  cur_write_node = none;
  cur_read_node = none;
  cur_read_offset = 0;
  cur_write_offset = 0;
  size_to_read = 0;
  node_count = 1;
  cnt = 0;
}

-- Where the node that is allocated next comes to lie.
abbrev link_last : List Node → ℕ → List Node
link_last [] p = []
link_last (n ∷ []) p = record n { next = some p } ∷ []
link_last (n ∷ (m ∷ rest)) p = n ∷ link_last (m ∷ rest) p

-- The end of `createlist`: the ring is closed, or -ENOMEM.
unfoldable pub finish_list : State → Bool × List Node → Ret × State
finish_list s (false, nodes) = (Ret.error Errno.enomem, record s { mem = nodes; head = some 0 })
finish_list s (true, nodes) = (
  Ret.value 0,
  record s {
    mem = link_last nodes 0;
    head = some 0;
    cur_write_node = some 0;
    cur_read_node = some 0;
    cur_read_offset = 0;
    cur_write_offset = 0;
  },
)

-- `kmalloc i` says what the allocation of node i and its buffer gives: the bytes that the buffer
-- held, or NULL for one of the two.
module _ (kmalloc : ℕ → Option (List ℕ)) where
  -- The loop of `createlist`, with the rounds left: whether all were allocated, and the nodes.
  unfoldable pub create_nodes : ℕ → List Node → Bool × List Node
  create_nodes zero mem = (true, mem)
  create_nodes (suc rounds) mem = elim (kmalloc (length mem)) [
    | none ↦ (false, mem)
    | some bytes ↦
        create_nodes rounds
          (link_last mem (length mem) ++ (record { buffer = bytes; next = none } ∷ []))
  ]

  unfoldable pub start_list : State → Option (List ℕ) → Ret × State
  start_list s none = (Ret.error Errno.enomem, s)
  start_list s (some bytes) =
      finish_list s (create_nodes (block_number - 1) (record { buffer = bytes; next = none } ∷ []))

  -- `createlist`, in a memory without nodes.
  unfoldable pub createlist : State → Ret × State
  createlist s = start_list s (kmalloc 0)

  -- `linkedlist_probe`: the result of `createlist` is not looked at, that of `misc_register` is
  -- returned.
  unfoldable pub probe : Ret → State → Ret × State
  probe registered s = (registered, (createlist s).1)

-- A block that is full is left for the next one, and after the last round the reader restarts.
unfoldable pub next_block : State → Option ℕ → State
next_block s next =
    if ltb block_number (s.node_count + 1)
    then record s {
      cur_write_node = next;
      cur_write_offset = 0;
      cur_read_node = next;
      cur_read_offset = 0;
      node_count = 0;
      cnt = 0;
      size_to_read = 0;
    }
    else record s { cur_write_node = next; cur_write_offset = 0; node_count = s.node_count + 1 }

-- How many of `size` bytes go into the current block.
abbrev pub write_size : State → ℕ → ℕ
write_size s size =
    if ltb size (block_size - s.cur_write_offset) then size else block_size - s.cur_write_offset

-- The counter of the bytes to read, at the start of a file or in the first block.
unfoldable pub count_size : State → ℕ → ℕ → State
count_size s size offset =
    if (offset == 0) || (s.node_count == 1)
    then record s { size_to_read = int_add s.size_to_read size }
    else s

-- The end of a write of `n` bytes.
unfoldable pub advance_write : State → Option ℕ → ℕ → State
advance_write s next n =
    if (s.cur_write_offset + n) == block_size
    then next_block s next
    else record s { cur_write_offset = s.cur_write_offset + n }

-- `copy_from_user dst src` is what the region `dst` holds after the copy, and whether all of it was
-- copied.
module _ (copy_from_user : List ℕ → List ℕ → List ℕ × Bool) where
  -- The copy into the node at p, which is `node`, and what follows it; none is an access outside the
  -- buffer.
  unfoldable pub write_node :
      State → ℕ → Node → (buf : List ℕ) (n offset : ℕ) → Option (Ret × State × ℕ)
  write_node s p node buf n offset =
      if ltb (length node.buffer) (s.cur_write_offset + n)
      then none
      else let (region, copied) =
          copy_from_user (take n (drop s.cur_write_offset node.buffer)) (take n buf) in
        let stored =
          take s.cur_write_offset node.buffer
          ++ (region ++ drop (s.cur_write_offset + n) node.buffer) in
        let t : State = record s {
          mem = set s.mem p (record { buffer = stored; next = node.next });
        } in
        if copied
        then some (Ret.value n, advance_write t node.next n, offset + n)
        else some (Ret.error Errno.efault, t, offset)

  -- `linkedlist_write` of the bytes `buf` at the file's offset; none is an access through a null
  -- pointer or outside a buffer.
  unfoldable pub write : State → (buf : List ℕ) (offset : ℕ) → Option (Ret × State × ℕ)
  write s buf offset = do
    p ← s.cur_write_node
    node ← nth s.mem p
    write_node (count_size s (length buf) offset) p node buf (write_size s (length buf)) offset

-- How many bytes a read takes.
abbrev pub read_value : State → ℕ
read_value s = int_sub s.size_to_read (int_mul block_size s.cnt)

abbrev pub read_size : State → ℕ
read_size s =
    if int_lt (read_value s) (block_size - s.cur_read_offset)
    then read_value s
    else block_size - s.cur_read_offset

-- The end of the data: everything is rewound.
abbrev pub rewind : State → State
rewind s = record s {
  cur_read_node = s.head;
  cur_write_node = s.head;
  cur_read_offset = 0;
  cur_write_offset = 0;
  node_count = 1;
  cnt = 0;
  size_to_read = 0;
}

-- The end of a read of `n` bytes; none where a null pointer is followed.
unfoldable pub advance_read : State → ℕ → Option State
advance_read s n =
    if (s.cur_read_offset + n) == block_size
    then (do
      r ← s.cur_read_node
      node ← nth s.mem r
      some (record s { cnt = int_add s.cnt 1; cur_read_node = node.next; cur_read_offset = 0 }))
    else some (record s { cur_read_offset = s.cur_read_offset + n })

-- `copy_to_user n src` says whether the `n` bytes, a pattern that may be negative, were copied.
module _ (copy_to_user : ℕ → List ℕ → Bool) where
  -- The copy of `n` bytes out of the node, and what follows it.
  unfoldable pub read_node : State → Node → (n offset : ℕ) → Option (Ret × List ℕ × State × ℕ)
  read_node s node n offset =
      if not (copy_to_user n (take n (drop s.cur_read_offset node.buffer)))
      then some (Ret.error Errno.efault, [], s, offset)
      else (if ltb (length node.buffer) (s.cur_read_offset + n) then none else (do
        t ← advance_read s n
        some (Ret.value n, take n (drop s.cur_read_offset node.buffer), t, offset + n)))

  -- `linkedlist_read` at the file's offset: the result, the bytes that the user gets, the state and
  -- the new offset. The bytes come from the node that is written next.
  unfoldable pub read : State → (offset : ℕ) → Option (Ret × List ℕ × State × ℕ)
  read s offset =
      if below_int offset s.size_to_read
      then (do p ← s.cur_write_node; node ← nth s.mem p; read_node s node (read_size s) offset)
      else some (Ret.value 0, [], rewind s, offset)

-- A system call on the device; `linkedlist_open` and `linkedlist_close` change nothing.
pub data Call : Type 0 where
  write_call : (buf : List ℕ) (offset : ℕ) → Call
  read_call : (offset : ℕ) → Call
  open_call close_call : Call

module _ (copy_from_user : List ℕ → List ℕ → List ℕ × Bool) (copy_to_user : ℕ → List ℕ → Bool) where
  unfoldable pub handle : Call → State → Option State
  handle (Call.write_call buf offset) s = do
    result ← write copy_from_user s buf offset
    some result.1
  handle (Call.read_call offset) s = do result ← read copy_to_user s offset; some result.2
  handle Call.open_call s = some s
  handle Call.close_call s = some s

  unfoldable pub run : List Call → State → Option State
  run [] s = some s
  run (c ∷ rest) s = do t ← handle c s; run rest t
