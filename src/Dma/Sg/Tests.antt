-- ===== src/Dma/Sg/Tests.antt =====
-- The theorems on dma/dma_sg.c at buffers in a row and at buffers elsewhere.
use raspberrypimodules.Prelude.{
  ℕ, ◌+◌, ◌*◌, ◌-◌, ◌<◌, ◌≤◌, ◌≡◌, ◌⊎◌, inl, inr, refl, true, false, ◌&&◌, [], ◌∷◌, List, arith,
  ltb, leb, if◌then◌else◌,
}
use raspberrypimodules.Prelude.Errno.{Ret}
use raspberrypimodules.Dma.Engine.{returned}
use raspberrypimodules.Dma.Samples.{working, working-Works, zeros, length-zeros}
use raspberrypimodules.Dma.Sg.{Memory, words, Mover, Sdma, fill_buffers, sdma_write}
use raspberrypimodules.Dma.Sg.Move.{Moves, InRow, Copied, sdma_write-Copied, sdma_write-astray}

abbrev copy_words : (dst src n : ℕ) → Memory → Memory
copy_words dst src n mem x = if leb dst x && ltb x (dst + n) then mem (src + (x - dst)) else mem x

abbrev working_mover : Mover
working_mover = record { prepared = true; submit_error = false; move = copy_words; finishes = true }

working_mover-copied :
    (dst src n i : ℕ) (mem : Memory)
    → (dst + n ≤ src) ⊎ (src + n ≤ dst)
    → i < n
    → copy_words dst src n mem (dst + i) ≡ mem (src + i)
working_mover-copied dst src n i mem apart h =
    let back : dst + i - dst ≡ i = omega arith in
    let above : leb dst (dst + i) ≡ true = ground arith in
    let inside : ltb (dst + i) (dst + n) ≡ true = ground arith in simp (above, inside, back) refl

working_mover-kept :
    (dst src n x : ℕ) (mem : Memory)
    → (x < dst) ⊎ (dst + n ≤ x)
    → copy_words dst src n mem x ≡ mem x
working_mover-kept dst src n x mem (inl h) = ground arith
working_mover-kept dst src n x mem (inr h) = ground arith

working_mover-Moves : Moves working_mover
working_mover-Moves = record {
  prepared = refl;
  submitted = refl;
  finishes = refl;
  copied = working_mover-copied;
  kept = working_mover-kept;
}

abbrev in_row : Sdma
in_row = record {
  wbuf = 0;
  wbuf2 = 1024;
  wbuf3 = 2048;
  rbuf = 4096;
  rbuf2 = 5120;
  rbuf3 = 6144;
  mem = λ x. 7;
  src_coherent = zeros;
  dst_coherent = zeros;
  mapped_sg = false;
  mapped_coherent = false;
}

in_row-InRow : InRow in_row
in_row-InRow = record { wbuf2 = refl; wbuf3 = refl; rbuf2 = refl; rbuf3 = refl }

abbrev text : List ℕ
text = 104 ∷ 105 ∷ []

sdma_write-Copied_example :
    (t : Sdma) × (sdma_write working_mover working 2 text in_row ≡ returned (Ret.value 2) t)
    × Copied t
sdma_write-Copied_example =
    sdma_write-Copied working_mover working 2 text in_row working_mover-Moves working-Works
      length-zeros length-zeros (omega arith) (omega arith) (inr (omega arith)) in_row-InRow

abbrev elsewhere : Sdma
elsewhere = record in_row { rbuf2 = 20480; rbuf3 = 40960 }

sdma_write-astray_example :
    (t : Sdma) × (sdma_write working_mover working 2 text elsewhere ≡ returned (Ret.value 2) t)
    × ((i : ℕ) → i < words → t.mem (20480 + i) ≡ (fill_buffers elsewhere).mem (20480 + i))
    × ((i : ℕ)
        → i < 2 * words
        → t.mem (4096 + words + i) ≡ (fill_buffers elsewhere).mem (0 + words + i))
sdma_write-astray_example =
    sdma_write-astray working_mover working 2 text elsewhere working_mover-Moves working-Works
      length-zeros length-zeros (omega arith) (omega arith) (inr (omega arith)) (inr (omega arith))
