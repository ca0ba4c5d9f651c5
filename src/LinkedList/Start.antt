-- ===== src/LinkedList/Start.antt =====
-- linkedlist/linkedlist_platform.c: the list that the probe makes, and a write that is read back.
use raspberrypimodules.Prelude.{
  subst, ℕ, zero, suc, ◌<◌, ◌≡◌, refl, sym, Bool, true, false, List, [], ◌∷◌, Option, none, some,
  arith, length,
}
use raspberrypimodules.Prelude.Errno.{Ret, Errno}
use raspberrypimodules.LinkedList.Device.{
  Node, State, initial, createlist, create_nodes, finish_list, start_list, probe, write,
}
use raspberrypimodules.LinkedList.Ring.{Block, Sound}

abbrev node_at : (ℕ → List ℕ) → ℕ → ℕ → Node
node_at bytes i next = record { buffer = bytes i; next = some next }

-- The ring of ten nodes.
abbrev ten_nodes : (ℕ → List ℕ) → List Node
ten_nodes bytes =
    node_at bytes 0 1
    ∷ node_at bytes 1 2
    ∷ node_at bytes 2 3
    ∷ node_at bytes 3 4
    ∷ node_at bytes 4 5
    ∷ node_at bytes 5 6
    ∷ node_at bytes 6 7
    ∷ node_at bytes 7 8
    ∷ node_at bytes 8 9
    ∷ node_at bytes 9 0
    ∷ []

abbrev pub made : (ℕ → List ℕ) → State
made bytes = record initial {
  mem = ten_nodes bytes;
  head = some 0;
  cur_write_node = some 0;
  cur_read_node = some 0;
}

made-Block :
    (bytes : ℕ → List ℕ)
    → ((i : ℕ) → length (bytes i) ≡ 5)
    → (i : ℕ) → i < 10
    → Block (ten_nodes bytes) i
made-Block bytes len zero h = record { node = _; found = refl; room = len 0; link = refl }
made-Block bytes len (suc zero) h = record { node = _; found = refl; room = len 1; link = refl }
made-Block bytes len (suc (suc zero)) h = record {
  node = _;
  found = refl;
  room = len 2;
  link = refl;
}
made-Block bytes len (suc (suc (suc zero))) h = record {
  node = _;
  found = refl;
  room = len 3;
  link = refl;
}
made-Block bytes len (suc (suc (suc (suc zero)))) h = record {
  node = _;
  found = refl;
  room = len 4;
  link = refl;
}
made-Block bytes len (suc (suc (suc (suc (suc zero))))) h = record {
  node = _;
  found = refl;
  room = len 5;
  link = refl;
}
made-Block bytes len (suc (suc (suc (suc (suc (suc zero)))))) h = record {
  node = _;
  found = refl;
  room = len 6;
  link = refl;
}
made-Block bytes len (suc (suc (suc (suc (suc (suc (suc zero))))))) h = record {
  node = _;
  found = refl;
  room = len 7;
  link = refl;
}
made-Block bytes len (suc (suc (suc (suc (suc (suc (suc (suc zero)))))))) h = record {
  node = _;
  found = refl;
  room = len 8;
  link = refl;
}
made-Block bytes len (suc (suc (suc (suc (suc (suc (suc (suc (suc zero))))))))) h = record {
  node = _;
  found = refl;
  room = len 9;
  link = refl;
}
made-Block bytes len (suc (suc (suc (suc (suc (suc (suc (suc (suc (suc i)))))))))) h =
    absurd (omega arith)

made-Sound : (bytes : ℕ → List ℕ) → ((i : ℕ) → length (bytes i) ≡ 5) → Sound (made bytes)
made-Sound bytes len = record {
  blocks = made-Block bytes len;
  w = 0;
  r = 0;
  w_in = omega arith;
  r_in = omega arith;
  writes_at = refl;
  reads_at = refl;
  starts_at = refl;
  write_room = omega arith;
  read_room = omega arith;
}

createlist_lem :
    (bytes : ℕ → List ℕ) → createlist (λ i. some (bytes i)) initial ≡ (Ret.value 0, made bytes)
unfolding createlist create_nodes finish_list start_list
createlist_lem bytes = refl

-- With allocations of five bytes each that all succeed, the probe leaves a sound state.
pub createlist-Sound :
    (bytes : ℕ → List ℕ) (registered : Ret)
    → ((i : ℕ) → length (bytes i) ≡ 5)
    → Sound (probe (λ i. some (bytes i)) registered initial).1
unfolding probe
createlist-Sound bytes registered len = ap_sound (made-Sound bytes len)
  where
    ap_sound : Sound (made bytes) → Sound (createlist (λ i. some (bytes i)) initial).1
    ap_sound i = subst (λ x. Sound x.1) (sym (createlist_lem bytes)) i

finish_unset :
    (s : State) (found : Bool × List Node)
    → (finish_list s found).0 ≡ Ret.error Errno.enomem
    → (finish_list s found).1.cur_write_node ≡ s.cur_write_node
unfolding finish_list
finish_unset s (false, nodes) h = refl
finish_unset s (true, nodes) h = absurd (cc h)

createlist_unset :
    (kmalloc : ℕ → Option (List ℕ)) (s : State)
    → (createlist kmalloc s).0 ≡ Ret.error Errno.enomem
    → (createlist kmalloc s).1.cur_write_node ≡ s.cur_write_node
unfolding createlist start_list
createlist_unset kmalloc s h = started (kmalloc 0) h
  where
    started :
        (got : Option (List ℕ))
        → (start_list kmalloc s got).0 ≡ Ret.error Errno.enomem
        → (start_list kmalloc s got).1.cur_write_node ≡ s.cur_write_node
    started none h = refl
    started (some bytes) h = finish_unset s (create_nodes kmalloc 9 _) h

-- The probe passes over an allocation that fails: `createlist` returns -ENOMEM, and every write after
-- it follows a null pointer.
probe-unallocated :
    (kmalloc : ℕ → Option (List ℕ)) (registered : Ret)
    (copy_from_user : List ℕ → List ℕ → List ℕ × Bool) (buf : List ℕ) (offset : ℕ)
    → (createlist kmalloc initial).0 ≡ Ret.error Errno.enomem
    → ((probe kmalloc registered initial).0 ≡ registered)
      × (write copy_from_user (probe kmalloc registered initial).1 buf offset ≡ none)
unfolding probe write
probe-unallocated kmalloc registered copy_from_user buf offset h =
    (refl, simp (createlist_unset kmalloc initial h) refl)
