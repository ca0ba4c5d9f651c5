-- ===== src/Dma/Sg/Move.antt =====
-- dma/dma_sg.c: which words the first transaction moves.
use raspberrypimodules.Prelude.{
  ℕ, ◌+◌, ◌*◌, ◌≤◌, ◌<◌, ◌≡◌, refl, sym, ap, ◌∙◌, ◌⊎◌, inl, inr, true, false, List, le→ltb, arith,
  length, get_or, memcpy, length-memcpy,
}
use raspberrypimodules.Prelude.Errno.{Ret}
use raspberrypimodules.Dma.Engine.{
  Engine, Works, returned, user_bytes-all, sdma_buffer_size, ==_self,
}
use raspberrypimodules.Dma.Sg.{
  Memory, words, Mover, Sdma, fill_buffers, compare_coherent, second_transaction, first_transaction,
  sdma_write,
}

-- A transaction on the memory that is carried out: the target has the words of the source, and all else is as
-- it was, where the two do not overlap.
pub record Moves (mover : Mover) : Type 0 where
  pub prepared : mover.prepared ≡ true
  pub submitted : mover.submit_error ≡ false
  pub finishes : mover.finishes ≡ true
  pub copied :
      (dst src n i : ℕ) (mem : Memory)
      → (dst + n ≤ src) ⊎ (src + n ≤ dst)
      → i < n
      → mover.move dst src n mem (dst + i) ≡ mem (src + i)
  pub kept :
      (dst src n x : ℕ) (mem : Memory)
      → (x < dst) ⊎ (dst + n ≤ x)
      → mover.move dst src n mem x ≡ mem x

-- What the write leaves of the state, if both transactions are carried out.
abbrev pub moved : Mover → (buf : List ℕ) → Sdma → Sdma
moved mover buf s =
    let text = memcpy s.src_coherent buf (length buf) in
    record s {
      mem = mover.move s.rbuf s.wbuf (3 * words) (fill_buffers s).mem;
      src_coherent = text;
      dst_coherent = text;
      mapped_sg = false;
      mapped_coherent = false;
    }

pub sdma_write-moved :
    (mover : Mover) (engine : Engine) (got : ℕ) (buf : List ℕ) (s : Sdma)
    → Moves mover
    → Works engine
    → length s.src_coherent ≡ sdma_buffer_size
    → length s.dst_coherent ≡ sdma_buffer_size
    → length buf ≤ sdma_buffer_size
    → length buf ≤ got
    → sdma_write mover engine got buf s ≡ returned (Ret.value (length buf)) (moved mover buf s)
unfolding sdma_write first_transaction second_transaction compare_coherent
sdma_write-moved mover engine got buf s m k ls ld fits readable =
    let text = memcpy s.src_coherent buf (length buf) in
    let size : length text ≡ length s.dst_coherent =
      length-memcpy s.src_coherent buf (length buf) refl (omega (arith, ls)) ∙ ls ∙ sym ld in
    rw (user_bytes-all got buf readable) (
      simp
        (
          le→ltb sdma_buffer_size (length buf) fits,
          le→ltb got (length buf) readable,
          m.prepared,
          m.submitted,
          m.finishes,
          k.prepared,
          k.submitted,
          k.finishes,
          k.copies text s.dst_coherent size,
          ==_self (get_or text 0 0),
        )
        refl)

-- The three buffers to read, and the three to write, each lie one behind the other.
pub record InRow (s : Sdma) : Type 0 where
  pub wbuf2 : s.wbuf2 ≡ s.wbuf + words
  pub wbuf3 : s.wbuf3 ≡ s.wbuf2 + words
  pub rbuf2 : s.rbuf2 ≡ s.rbuf + words
  pub rbuf3 : s.rbuf3 ≡ s.rbuf2 + words

-- The words from `wbuf` on and those from `rbuf` on do not overlap.
abbrev pub Apart : Sdma → Type 0
Apart s = (s.rbuf + 3 * words ≤ s.wbuf) ⊎ (s.wbuf + 3 * words ≤ s.rbuf)

-- The buffers to write have what was filled into those to read.
pub record Copied (s : Sdma) : Type 0 where
  pub first : (i : ℕ) → i < words → s.mem (s.rbuf + i) ≡ 0x12345678
  pub second : (i : ℕ) → i < words → s.mem (s.rbuf2 + i) ≡ 0x87654321
  pub third : (i : ℕ) → i < words → s.mem (s.rbuf3 + i) ≡ 0xabcdef12

module _ (s : Sdma) (row : InRow s) (i : ℕ) (h : i < words) where
  filled_first : (fill_buffers s).mem (s.wbuf + i) ≡ 0x12345678
  filled_first = ground (arith, row.wbuf2, row.wbuf3)

  filled_second : (fill_buffers s).mem (s.wbuf + (i + words)) ≡ 0x87654321
  filled_second = ground (arith, row.wbuf2, row.wbuf3)

  filled_third : (fill_buffers s).mem (s.wbuf + (i + 2 * words)) ≡ 0xabcdef12
  filled_third = ground (arith, row.wbuf2, row.wbuf3)

module _ (mover : Mover) (buf : List ℕ) (s : Sdma) (m : Moves mover) (apart : Apart s) where
  at_row :
      (i x : ℕ)
      → i < 3 * words
      → x ≡ s.rbuf + i
      → (moved mover buf s).mem x ≡ (fill_buffers s).mem (s.wbuf + i)
  at_row i x lt e = rw e (m.copied s.rbuf s.wbuf (3 * words) i (fill_buffers s).mem apart lt)

  moved-Copied : InRow s → Copied (moved mover buf s)
  moved-Copied row = record {
    first = λ i h. at_row i (s.rbuf + i) (omega arith) refl ∙ filled_first s row i h;
    second = λ i h.
        at_row (i + words) (s.rbuf2 + i) (omega arith) (omega (arith, row.rbuf2))
        ∙ filled_second s row i h;
    third = λ i h.
        at_row (i + 2 * words) (s.rbuf3 + i) (omega arith) (omega (arith, row.rbuf2, row.rbuf3))
        ∙ filled_third s row i h;
  }

-- With three buffers to read in a row, three to write in a row, the two rows apart, and an engine that carries out
-- both transactions: the write of a text that fits and can be read returns its length, and each buffer to
-- write has the words of its own buffer to read.
pub sdma_write-Copied :
    (mover : Mover) (engine : Engine) (got : ℕ) (buf : List ℕ) (s : Sdma)
    → Moves mover
    → Works engine
    → length s.src_coherent ≡ sdma_buffer_size
    → length s.dst_coherent ≡ sdma_buffer_size
    → length buf ≤ sdma_buffer_size
    → length buf ≤ got
    → Apart s
    → InRow s
    → (t : Sdma) × (sdma_write mover engine got buf s ≡ returned (Ret.value (length buf)) t)
      × Copied t
sdma_write-Copied mover engine got buf s m k ls ld fits readable apart row = (
  moved mover buf s,
  sdma_write-moved mover engine got buf s m k ls ld fits readable,
  moved-Copied mover buf s m apart row,
)

-- With an engine that carries out both transactions, a text that fits and can be read, coherent buffers of their full
-- size, and the three buffers' length behind `wbuf` apart from that behind `rbuf`: where the second buffer to write
-- begins at that length behind the first or further on, or ends before the first, the write returns the length of the
-- text as if all were well, but the second buffer has the words that it had after the filling, and two buffers'
-- length of words behind the first, whatever they belong to, are overwritten by those behind `wbuf`.
pub sdma_write-astray :
    (mover : Mover) (engine : Engine) (got : ℕ) (buf : List ℕ) (s : Sdma)
    → Moves mover
    → Works engine
    → length s.src_coherent ≡ sdma_buffer_size
    → length s.dst_coherent ≡ sdma_buffer_size
    → length buf ≤ sdma_buffer_size
    → length buf ≤ got
    → Apart s
    → (s.rbuf2 + words ≤ s.rbuf) ⊎ (s.rbuf + 3 * words ≤ s.rbuf2)
    → (t : Sdma) × (sdma_write mover engine got buf s ≡ returned (Ret.value (length buf)) t)
      × ((i : ℕ) → i < words → t.mem (s.rbuf2 + i) ≡ (fill_buffers s).mem (s.rbuf2 + i))
      × ((i : ℕ)
          → i < 2 * words
          → t.mem (s.rbuf + words + i) ≡ (fill_buffers s).mem (s.wbuf + words + i))
sdma_write-astray mover engine got buf s m k ls ld fits readable apart away = (
  moved mover buf s,
  sdma_write-moved mover engine got buf s m k ls ld fits readable,
  λ i h. m.kept s.rbuf s.wbuf (3 * words) (s.rbuf2 + i) (fill_buffers s).mem (outside i h away),
  λ i h.
      at_row mover buf s m apart (words + i) (s.rbuf + words + i) (omega arith) (omega arith)
      ∙ ap (fill_buffers s).mem (omega arith),
)
  where
    outside :
        (i : ℕ)
        → i < words
        → (s.rbuf2 + words ≤ s.rbuf) ⊎ (s.rbuf + 3 * words ≤ s.rbuf2)
        → (s.rbuf2 + i < s.rbuf) ⊎ (s.rbuf + 3 * words ≤ s.rbuf2 + i)
    outside i h (inl a) = inl (omega arith)
    outside i h (inr b) = inr (omega arith)
