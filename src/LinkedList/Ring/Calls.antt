-- ===== src/LinkedList/Ring/Calls.antt =====
-- linkedlist/linkedlist_platform.c: every sequence of calls keeps to the ring.
use raspberrypimodules.Prelude.{
  subst, ℕ, ◌+◌, ◌≤◌, ◌<◌, ◌≡◌, refl, sym, ◌∙◌, Bool, true, false, inl, inr, List, [], ◌∷◌, ◌++◌,
  Option, none, some, arith, ◌==◌, length, take, drop, set, nth, le→ltb, Bool-cases,
}
use raspberrypimodules.Prelude.Errno.{Ret}
use raspberrypimodules.Prelude.Words.{negative, below_int}
use raspberrypimodules.Prelude.Options.{◌>>=◌}
use raspberrypimodules.LinkedList.Device.{
  Node, State, Call, handle, run, write, write_node, write_size, count_size, advance_write, read,
  read_node, advance_read, read_size, rewind,
}
use raspberrypimodules.LinkedList.Ring.{
  Sound, Kept, Writes, after, after_in, advance_write-Sound, size_to_read-Sound, count_size_form,
  write_size_fits, length_stored, store-Sound,
}

-- The state of a result.
Kept-step :
    (m : Option State) (a : Ret) (b : List ℕ) (c : ℕ)
    → Kept m
    → let f : State → Option (Ret × List ℕ × State × ℕ) = λ t. some (a, b, t, c) in
      Kept (m >>= f >>= λ x. some x.2)
Kept-step none a b c k = k
Kept-step (some t) a b c k = k

-- What the kernel documents of its copies: the region keeps its length, and a negative size fails.
abbrev pub Copies : (List ℕ → List ℕ → List ℕ × Bool) → Type 0
Copies copy_from_user = (dst src : List ℕ) → length (copy_from_user dst src).0 ≡ length dst

abbrev pub Refuses : (ℕ → List ℕ → Bool) → Type 0
Refuses copy_to_user = (n : ℕ) (src : List ℕ) → negative n ≡ true → copy_to_user n src ≡ false

-- A write where its two pointers lead.
pub write_step :
    (copy_from_user : List ℕ → List ℕ → List ℕ × Bool) (s : State) (p : ℕ) (node : Node)
    (buf : List ℕ) (offset : ℕ)
    → s.cur_write_node ≡ some p
    → nth s.mem p ≡ some node
    → write copy_from_user s buf offset
      ≡ write_node copy_from_user
          (count_size s (length buf) offset)
          p
          node
          buf
          (write_size s (length buf))
          offset
unfolding write
write_step copy_from_user s p node buf offset at found = simp (at, found) refl

-- A read before the end of the data where its two pointers lead.
pub read_step :
    (copy_to_user : ℕ → List ℕ → Bool) (s : State) (p : ℕ) (node : Node) (offset : ℕ)
    → below_int offset s.size_to_read ≡ true
    → s.cur_write_node ≡ some p
    → nth s.mem p ≡ some node
    → read copy_to_user s offset ≡ read_node copy_to_user s node (read_size s) offset
unfolding read
read_step copy_to_user s p node offset more at found = simp (more, at, found) refl

module _ (copy_from_user : List ℕ → List ℕ → List ℕ × Bool) (good : Copies copy_from_user) where
  write_node-Sound :
      (s : State) (p : ℕ) (node : Node) (buf : List ℕ) (n offset : ℕ)
      → Sound s
      → Writes s p node
      → s.cur_write_offset + n ≤ 5
      → Kept (write_node copy_from_user s p node buf n offset >>= λ x. some x.1)
  unfolding write_node
  write_node-Sound s p node buf n offset i at fits =
      let dst = take n (drop s.cur_write_offset node.buffer) in
      let bytes =
        take s.cur_write_offset node.buffer
        ++ ((copy_from_user dst (take n buf)).0 ++ drop (s.cur_write_offset + n) node.buffer) in
      let t : State = record s {
        mem = set s.mem p (record { buffer = bytes; next = node.next });
      } in
      let stored =
        store-Sound s p node bytes i at
          (length_stored node.buffer _ s.cur_write_offset n at.room fits (good dst (take n buf))) in
      rw (at.room, le→ltb 5 (s.cur_write_offset + n) fits)
        (elim (Bool-cases (copy_from_user dst (take n buf)).1) [
          | inl e ↦ rw e (
              subst (λ x. Sound (advance_write t x n)) (sym at.link)
                (advance_write-Sound t n stored at.inside fits))
          | inr e ↦ rw e stored
        ])

  pub write-Sound :
      (s : State) (buf : List ℕ) (offset : ℕ)
      → Sound s
      → Kept (write copy_from_user s buf offset >>= λ x. some x.1)
  write-Sound s buf offset i =
      let b = i.blocks i.w i.w_in in
      let (z, counted) = count_size_form s (length buf) offset in
      let at : Writes (record s { size_to_read = z }) i.w b.node = record {
        at = i.writes_at;
        inside = i.w_in;
        found = b.found;
        room = b.room;
        link = b.link;
      } in
      rw (write_step copy_from_user s i.w b.node buf offset i.writes_at b.found, counted)
        (write_node-Sound (record s { size_to_read = z }) i.w b.node buf (write_size s (length buf))
          offset (size_to_read-Sound s z i) at (write_size_fits s (length buf) i.write_room))

advance_read-Sound :
    (s : State) (n : ℕ) → Sound s → s.cur_read_offset + n ≤ 5 → Kept (advance_read s n)
unfolding advance_read
advance_read-Sound s n i fits = elim (Bool-cases ((s.cur_read_offset + n) == 5)) [
  | inl e ↦
      let b = i.blocks i.r i.r_in in
      rw (e, i.reads_at, b.found)
        (record {
          blocks = i.blocks;
          w = i.w;
          r = after i.r;
          w_in = i.w_in;
          r_in = after_in i.r i.r_in;
          writes_at = i.writes_at;
          reads_at = b.link;
          starts_at = i.starts_at;
          write_room = i.write_room;
          read_room = omega arith;
        })
  | inr e ↦ rw e (record {
    blocks = i.blocks;
    w = i.w;
    r = i.r;
    w_in = i.w_in;
    r_in = i.r_in;
    writes_at = i.writes_at;
    reads_at = i.reads_at;
    starts_at = i.starts_at;
    write_room = i.write_room;
    read_room = ground arith;
  })
]

-- A size that is not negative fits.
read_size_fits :
    (s : State)
    → s.cur_read_offset < 5
    → negative (read_size s) ≡ false
    → s.cur_read_offset + read_size s ≤ 5
read_size_fits s h pos = ground arith

module _ (copy_to_user : ℕ → List ℕ → Bool) (good : Refuses copy_to_user) where
  read_node-Sound :
      (s : State) (node : Node) (n offset : ℕ)
      → Sound s
      → length node.buffer ≡ 5
      → (negative n ≡ false → s.cur_read_offset + n ≤ 5)
      → Kept (read_node copy_to_user s node n offset >>= λ x. some x.2)
  unfolding read_node
  read_node-Sound s node n offset i room fits =
      let src = take n (drop s.cur_read_offset node.buffer) in
      elim (Bool-cases (copy_to_user n src)) [
        | inr e ↦ rw e i
        | inl e ↦ elim (Bool-cases (negative n)) [
          | inl f ↦ absurd (cc (sym e ∙ good n src f))
          | inr f ↦
              rw (e, room, le→ltb 5 (s.cur_read_offset + n) (fits f))
                (Kept-step (advance_read s n) (Ret.value n) src (offset + n)
                  (advance_read-Sound s n i (fits f)))
        ]
      ]

  rewind-Sound : (s : State) → Sound s → Sound (rewind s)
  rewind-Sound s i = record {
    blocks = i.blocks;
    w = 0;
    r = 0;
    w_in = omega arith;
    r_in = omega arith;
    writes_at = i.starts_at;
    reads_at = i.starts_at;
    starts_at = i.starts_at;
    write_room = omega arith;
    read_room = omega arith;
  }

  pub read-Sound :
      (s : State) (offset : ℕ) → Sound s → Kept (read copy_to_user s offset >>= λ x. some x.2)
  unfolding read
  read-Sound s offset i = elim (Bool-cases (below_int offset s.size_to_read)) [
    | inl e ↦
        let b = i.blocks i.w i.w_in in
        subst (λ m. Kept (m >>= λ x. some x.2))
          (sym (read_step copy_to_user s i.w b.node offset e i.writes_at b.found))
          (read_node-Sound s b.node (read_size s) offset i b.room (read_size_fits s i.read_room))
    | inr e ↦ simp e (rewind-Sound s i)
  ]

module _ (copy_from_user : List ℕ → List ℕ → List ℕ × Bool) (copies : Copies copy_from_user)
    (copy_to_user : ℕ → List ℕ → Bool) (refuses : Refuses copy_to_user) where
  handle-Sound : (c : Call) (s : State) → Sound s → Kept (handle copy_from_user copy_to_user c s)
  unfolding handle
  handle-Sound (Call.write_call buf offset) s i = write-Sound copy_from_user copies s buf offset i
  handle-Sound (Call.read_call offset) s i = read-Sound copy_to_user refuses s offset i
  handle-Sound Call.open_call s i = i
  handle-Sound Call.close_call s i = i

  -- No sequence of system calls in a sound state follows a null pointer or leaves a buffer, whatever
  -- their sizes and offsets and whichever copies fail, and the state that it ends in is sound.
  pub run-Sound :
      (calls : List Call) (s : State) → Sound s → Kept (run copy_from_user copy_to_user calls s)
  unfolding run
  run-Sound [] s i = i
  run-Sound (c ∷ rest) s i =
      continue (handle copy_from_user copy_to_user c s) (run copy_from_user copy_to_user rest)
        (handle-Sound c s i) (run-Sound rest)
    where
      continue :
          (m : Option State) (f : State → Option State)
          → Kept m
          → ((t : State) → Sound t → Kept (f t))
          → Kept (m >>= f)
      continue none f k next = k
      continue (some t) f k next = next t k
