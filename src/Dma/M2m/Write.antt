-- ===== src/Dma/M2m/Write.antt =====
-- dma/dma_m2m.c: what a write leaves in the buffers, and of the mappings.
use raspberrypimodules.Prelude.{
  ℕ, zero, suc, ◌≤◌, ◌≡◌, refl, sym, ◌∙◌, true, List, [], ◌∷◌, ◌++◌, append_assoc, Option, none,
  some, le→ltb, arith, length, get_or, replicate, memcpy, length-memcpy,
}
use raspberrypimodules.Prelude.Options.{◌>>=◌}
use raspberrypimodules.Prelude.Errno.{Ret, Errno}
use raspberrypimodules.Dma.Engine.{
  Engine, Works, Outcome, returned, blocked, fault, sdma_buffer_size, user_bytes-all, ==_self,
}
use raspberrypimodules.Dma.M2m.{
  Mapping, DmaPrivate, compare_buffers, unmap_both, issue_and_wait, submit, map_both, sdma_write,
}

-- The buffers are as `my_probe` allocates them.
pub record Allocated (d : DmaPrivate) : Type 0 where
  pub wbuf : length d.wbuf ≡ sdma_buffer_size
  pub rbuf : length d.rbuf ≡ sdma_buffer_size

issue_and_wait-Works :
    {engine : Engine} (count : ℕ) (d : DmaPrivate)
    → Works engine
    → Allocated d
    → issue_and_wait engine count (map_both d)
      ≡ returned (Ret.value count) (record d { rbuf = d.wbuf })
unfolding issue_and_wait unmap_both compare_buffers
issue_and_wait-Works {engine} count d w a =
    rw w.finishes
      (rw (w.copies d.wbuf d.rbuf (a.wbuf ∙ sym a.rbuf)) (rw (==_self (get_or d.wbuf 0 0)) refl))

submit-Works :
    {engine : Engine} (count : ℕ) (d : DmaPrivate)
    → Works engine
    → Allocated d
    → submit engine count (map_both d) ≡ returned (Ret.value count) (record d { rbuf = d.wbuf })
unfolding submit
submit-Works count d w a = simp (w.prepared, w.submitted) (issue_and_wait-Works count d w a)

-- With a user's bytes that fit into a buffer and can be read, and an engine that carries out the transaction:
-- the write returns the number of bytes; both buffers hold them, and behind them what `wbuf` held before;
-- and no mapping is left.
pub sdma_write-Works :
    {engine : Engine} (got : ℕ) (buf : List ℕ) (d : DmaPrivate)
    → Works engine
    → Allocated d
    → length buf ≤ sdma_buffer_size
    → length buf ≤ got
    → sdma_write engine got buf d
      ≡ returned (Ret.value (length buf)) (record d {
        wbuf = memcpy d.wbuf buf (length buf);
        rbuf = memcpy d.wbuf buf (length buf);
      })
unfolding sdma_write
sdma_write-Works got buf d w a fits readable = rw (user_bytes-all got buf readable) (
    rw (le→ltb sdma_buffer_size (length buf) fits) (
      rw (le→ltb got (length buf) readable) (
        submit-Works (length buf) (record d { wbuf = memcpy d.wbuf buf (length buf) }) w
          (record {
            wbuf = length-memcpy d.wbuf buf (length buf) refl (omega (arith, a.wbuf)) ∙ a.wbuf;
            rbuf = a.rbuf;
          }))))

-- The writes of a user one after another, of bytes that can all be read, with their results.
abbrev pub and_then :
    (DmaPrivate → Option (List Ret × DmaPrivate))
    → Outcome DmaPrivate
    → Option (List Ret × DmaPrivate)
and_then f (returned r d) = do (rs, e) ← f d; some (r ∷ rs, e)
and_then f (blocked d) = none
and_then f fault = none

unfoldable pub write_all : Engine → List (List ℕ) → DmaPrivate → Option (List Ret × DmaPrivate)
write_all engine [] d = some ([], d)
write_all engine (buf ∷ bufs) d =
    and_then (write_all engine bufs) (sdma_write engine (length buf) buf d)

abbrev pub AllFit : List (List ℕ) → Type 0
AllFit [] = Unit {0}
AllFit (buf ∷ bufs) = (length buf ≤ sdma_buffer_size) × AllFit bufs

-- The mappings that `n` writes leave behind.
abbrev pub left_over : ℕ → List Mapping
left_over zero = []
left_over (suc n) = left_over n ++ (Mapping.dst ∷ Mapping.src ∷ [])

sdma_write-refused :
    (engine : Engine) (buf : List ℕ) (d : DmaPrivate)
    → engine.prepared ≡ true
    → engine.submit_error ≡ true
    → length buf ≤ sdma_buffer_size
    → sdma_write engine (length buf) buf d
      ≡ returned
          (Ret.error Errno.einval)
          (map_both (record d { wbuf = memcpy d.wbuf buf (length buf) }))
unfolding sdma_write submit
sdma_write-refused engine buf d p e fits = rw (user_bytes-all (length buf) buf (omega arith)) (
    rw (le→ltb sdma_buffer_size (length buf) fits)
      (rw (le→ltb (length buf) (length buf) (omega arith)) (simp (p, e) refl)))

-- While `dmaengine_submit` fails, each write returns -EINVAL and leaves both of its mappings, so that `n` of
-- them leave 2 n.
write_all-refused :
    (engine : Engine) (bufs : List (List ℕ)) (d : DmaPrivate)
    → engine.prepared ≡ true
    → engine.submit_error ≡ true
    → AllFit bufs
    → (e : DmaPrivate) × (write_all engine bufs d
        ≡ some (replicate (length bufs) (Ret.error Errno.einval), e))
      × (e.mapped ≡ left_over (length bufs) ++ d.mapped)
unfolding write_all
write_all-refused engine [] d p e fits = (d, refl, refl)
write_all-refused engine (buf ∷ bufs) d p e (fit, fits) =
    let (d', eq, m) =
      write_all-refused engine bufs (map_both (record d { wbuf = memcpy d.wbuf buf (length buf) }))
        p e fits in
    (
      d',
      rw (sdma_write-refused engine buf d p e fit) (rw eq refl),
      m ∙ sym (append_assoc (left_over (length bufs)) (Mapping.dst ∷ Mapping.src ∷ []) d.mapped),
    )
