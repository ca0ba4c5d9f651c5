-- ===== src/Dma/Mmap/Program.antt =====
-- dma/dma_mmap.c with dma/sdma_ioctl/sdma.c: from the phrase that is typed to the bytes that are copied.
use raspberrypimodules.Prelude.{
  ℕ, zero, suc, ◌*◌, ◌/◌, ◌%◌, ◌<◌, ◌≡◌, ◌≢◌, refl, sym, ap, ◌∙◌, true, false, List, [], ◌∷◌, ◌++◌,
  some, ◌==◌, arith, length, length-append, drop, replicate, length-replicate, get_or, memcpy,
  length-memcpy, take-all, lt→ltb,
}
use raspberrypimodules.Prelude.Strings.{c_string}
use raspberrypimodules.Prelude.Errno.{Ret}
use raspberrypimodules.Dma.Engine.{Engine, Works, returned, sdma_buffer_size, ==_self}
use raspberrypimodules.Dma.Mmap.{
  DmaPrivate, free_buffers, compare_buffers, move_and_wait, submit, sdma_ioctl, sdma_open,
  open_rbuf, sdma_mmap, scan_phrase, use_page, use_device, main_program, page_size,
}

==_other : (a b : ℕ) → a ≢ b → (a == b) ≡ false
==_other a b h = ground arith

-- Both buffers are open, the first mapped once.
abbrev pub opened : (w r : ℕ) (wb rb : List ℕ) → DmaPrivate → DmaPrivate
opened w r wb rb d = record d {
  wbuf = w;
  rbuf = r;
  dma_src = w;
  mapped = w ∷ d.mapped;
  heap = (r, rb) ∷ (w, wb) ∷ d.heap;
}

-- What an ioctl that succeeds leaves.
abbrev pub ended : (w r : ℕ) (wb : List ℕ) → DmaPrivate → DmaPrivate
ended w r wb d = record d {
  wbuf = w;
  rbuf = r;
  dma_src = w;
  dma_dst = r;
  mapped = w ∷ d.mapped;
  printed = (c_string wb, c_string wb) ∷ d.printed;
}

pub sdma_ioctl-opened :
    (engine : Engine) (w r : ℕ) (wb rb : List ℕ) (d : DmaPrivate)
    → Works engine
    → w ≢ r
    → length wb ≡ length rb
    → sdma_ioctl engine (opened w r wb rb d) ≡ returned (Ret.value 0) (ended w r wb d)
unfolding sdma_ioctl submit move_and_wait compare_buffers free_buffers
sdma_ioctl-opened engine w r wb rb d k distinct same =
    let ww = ==_self w in
    let rr = ==_self r in
    let wr = ==_other w r distinct in
    let rw' = ==_other r w (λ e. distinct (sym e)) in
    simp
      (
        k.prepared,
        k.submitted,
        k.finishes,
        ww,
        rr,
        wr,
        rw',
        k.copies wb rb same,
        ==_self (get_or wb 0 0),
      )
      refl

-- A phrase has no NUL.
abbrev pub IsPhrase : List ℕ → Type 0
IsPhrase [] = Unit {0}
IsPhrase (c ∷ phrase) = (0 < c) × IsPhrase phrase

c_string-phrase :
    (phrase rest : List ℕ) → IsPhrase phrase → c_string ((phrase ++ (0 ∷ [])) ++ rest) ≡ phrase
c_string-phrase [] rest h = refl
c_string-phrase (zero ∷ phrase) rest (c, h) = absurd (omega arith)
c_string-phrase (suc n ∷ phrase) rest (c, h) = ap (λ l. suc n ∷ l) (c_string-phrase phrase rest h)

abbrev zeros : List ℕ
zeros = replicate sdma_buffer_size 0

-- `wbuf` behind the `strcpy`.
abbrev filled : List ℕ → List ℕ
filled phrase = let new = phrase ++ (0 ∷ []) in memcpy zeros new (length new)

c_string-filled : (phrase : List ℕ) → IsPhrase phrase → c_string (filled phrase) ≡ phrase
c_string-filled phrase h =
    let new = phrase ++ (0 ∷ []) in
    rw (take-all new) (c_string-phrase phrase (drop (length new) zeros) h)

length-filled :
    (phrase : List ℕ) → length phrase < sdma_buffer_size → length (filled phrase) ≡ length zeros
length-filled phrase h =
    let new : List ℕ = phrase ++ (0 ∷ []) in
    let nul : List ℕ = 0 ∷ [] in
    let size : length zeros ≡ sdma_buffer_size = length-replicate {A = ℕ} sdma_buffer_size 0 in
    length-memcpy zeros new (length new) refl (omega (arith, length-append phrase nul, size))

-- With an engine that carries out the transaction, two blocks of which the first starts a page, and a typed line that
-- is not empty, has no NUL and fits the program's array: what the program copies into the user's page is what the
-- driver finds in `rbuf` behind the transaction; the ioctl returns 0 and both blocks are free again. But the mapping
-- that `sdma_open` made is left. Of an empty line nothing is said: `scanf` then leaves the array as it was.
pub main_program-copies :
    (engine : Engine) (w r : ℕ) (stack phrase : List ℕ) (d : DmaPrivate)
    → Works engine
    → w ≢ r
    → w % page_size ≡ 0
    → phrase ≢ []
    → IsPhrase phrase
    → length phrase < sdma_buffer_size
    → main_program engine (some w) (some r) true stack phrase d
      ≡ returned (Ret.value 0) (record d {
        wbuf = w;
        rbuf = r;
        dma_src = w;
        dma_dst = r;
        mapped = w ∷ d.mapped;
        printed = (phrase, phrase) ∷ d.printed;
      })
unfolding main_program sdma_open open_rbuf use_device scan_phrase use_page sdma_mmap
main_program-copies engine w r stack [] d k distinct aligned some_text ph short =
    absurd (some_text refl)
main_program-copies engine w r stack (c ∷ line) d k distinct aligned some_text ph short =
    let phrase : List ℕ = c ∷ line in
    let at_page : w / page_size * page_size ≡ w = omega arith in
    let text = c_string-filled phrase ph in
    rw (lt→ltb (length phrase) sdma_buffer_size short) (
      rw at_page (
        simp (==_self w, ==_other r w (λ e. distinct (sym e)))
          (sdma_ioctl-opened engine w r (filled phrase) zeros d k distinct
              (length-filled phrase short)
            ∙ ap
                (λ t.
                  returned (Ret.value 0)
                    (record (ended w r (filled phrase) d) { printed = (t, t) ∷ d.printed }))
                text)))
