-- ===== src/LinkedList/Contents/Write.antt =====
-- linkedlist/linkedlist_platform.c: a write appends to what the ring holds.
use raspberrypimodules.Prelude.{
  subst, ℕ, ◌+◌, ◌≤◌, ◌<◌, ◌≡◌, refl, sym, ◌∙◌, ap, true, List, ◌++◌, some, arith, length, take,
  drop, set, length-take, length-drop, append_assoc, le→ltb, Bool,
}
use raspberrypimodules.Prelude.Errno.{Ret}
use raspberrypimodules.LinkedList.Device.{Node, State, write, write_node, write_size, advance_write}
use raspberrypimodules.LinkedList.Ring.{Sound, count_size_form, write_size_fits}
use raspberrypimodules.LinkedList.Ring.Calls.{write_step}
use raspberrypimodules.LinkedList.Contents.{
  blocks_bytes, buffer_of, written_to, written, stored, written_advance,
}

-- Copies from the user that succeed.
abbrev pub Complete : (List ℕ → List ℕ → List ℕ × Bool) → Type 0
Complete copy_from_user =
    (dst src : List ℕ) → length src ≡ length dst → copy_from_user dst src ≡ (src, true)

length_new :
    (s : State) (buf : List ℕ)
    → length (take (write_size s (length buf)) buf) ≡ write_size s (length buf)
length_new s buf = ground (arith, length-take (write_size s (length buf)) buf)

module _ (copy_from_user : List ℕ → List ℕ → List ℕ × Bool)
    (complete : Complete copy_from_user) where
  -- A copy of the bytes `new` into the node at p.
  pub write_node_lem :
      (s : State) (p : ℕ) (node : Node) (buf new : List ℕ) (offset : ℕ)
      → length node.buffer ≡ 5
      → s.cur_write_offset + length new ≤ 5
      → take (length new) buf ≡ new
      → write_node copy_from_user s p node buf (length new) offset
        ≡ some (
          Ret.value (length new),
          advance_write
              (record s {
                mem = set s.mem p (record {
                  buffer = stored node.buffer s.cur_write_offset new;
                  next = node.next;
                });
              })
              node.next
              (length new),
          offset + length new,
        )
  unfolding write_node
  write_node_lem s p node buf new offset room fits is =
      let dst = take (length new) (drop s.cur_write_offset node.buffer) in
      let same : length new ≡ length dst = omega (
        arith,
        length-take (length new) (drop s.cur_write_offset node.buffer),
        length-drop s.cur_write_offset node.buffer,
      ) in
      rw (room, le→ltb 5 (s.cur_write_offset + length new) fits, is, complete dst new same) refl

  write_new :
      (s : State) (buf new : List ℕ) (offset : ℕ)
      → Sound s
      → length new ≡ write_size s (length buf)
      → take (length new) buf ≡ new
      → (s.cur_write_node ≡ some 9 → s.cur_write_offset + length new < 5)
      → (t : State) × (write copy_from_user s buf offset
          ≡ some (Ret.value (length new), t, offset + length new))
        × (written t ≡ written s ++ new)
  write_new s buf new offset i len is last =
      let b = i.blocks i.w i.w_in in
      let (z, counted) = count_size_form s (length buf) offset in
      let u : State = record s { size_to_read = z } in
      let off = s.cur_write_offset in
      let fits : off + length new ≤ 5 =
        subst (λ n. off + n ≤ 5) (sym len) (write_size_fits s (length buf) i.write_room) in
      let old : written s ≡ blocks_bytes i.w s.mem ++ take off b.node.buffer =
        ap (λ c. written_to c off s.mem) i.writes_at
        ∙ ap (λ x. blocks_bytes i.w s.mem ++ take off (buffer_of x)) b.found in
      (
        _,
        write_step copy_from_user s i.w b.node buf offset i.writes_at b.found
            ∙ ap
                (λ c. write_node copy_from_user c i.w b.node buf (write_size s (length buf)) offset)
                counted
            ∙ ap (λ n. write_node copy_from_user u i.w b.node buf n offset) (sym len)
            ∙ write_node_lem u i.w b.node buf new offset b.room fits is,
        ap
              (λ x. written (
                advance_write
                  (record u {
                    mem =
                        set s.mem i.w
                          (record { buffer = stored b.node.buffer off new; next = b.node.next });
                  })
                  x (length new)))
              b.link
            ∙ written_advance u i.w b.node new b.found i.writes_at b.room fits
                (λ e. last (i.writes_at ∙ ap some e))
            ∙ sym (append_assoc (blocks_bytes i.w s.mem) (take off b.node.buffer) new)
            ∙ ap (λ l. l ++ new) (sym old),
      )

  -- If copies from the user succeed, a write in a sound state, unless it would fill the last of the
  -- ten blocks, returns how many bytes fit into the block of the writer, moves the offset by as many,
  -- and the device holds what it held followed by these bytes.
  pub write-written :
      (s : State) (buf : List ℕ) (offset : ℕ)
      → Sound s
      → (s.cur_write_node ≡ some 9 → s.cur_write_offset + write_size s (length buf) < 5)
      → let n = write_size s (length buf) in
        (t : State) × (write copy_from_user s buf offset ≡ some (Ret.value n, t, offset + n))
        × (written t ≡ written s ++ take n buf)
  write-written s buf offset i last =
      let new = take (write_size s (length buf)) buf in
      let len : length new ≡ write_size s (length buf) = length_new s buf in
      subst
        (λ n.
          (t : State) × (write copy_from_user s buf offset ≡ some (Ret.value n, t, offset + n))
          × (written t ≡ written s ++ new))
        len
        (write_new s buf new offset i len (ap (λ n. take n buf) len)
          (subst (λ n. s.cur_write_node ≡ some 9 → s.cur_write_offset + n < 5) (sym len) last))
