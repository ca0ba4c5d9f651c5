-- ===== src/Dma/M2m.antt =====
-- dma/dma_m2m.c: a write is copied from one buffer of the driver to another by DMA.
pub mod Write
pub mod Probe
mod Tests
use raspberrypimodules.Prelude.{
  ℕ, ◌-◌, Bool, true, false, List, [], ◌∷◌, Option, none, some, ◌==◌, ltb, if◌then◌else◌, not,
  length, get_or, memcpy,
}
use raspberrypimodules.Prelude.Options.{◌>>=◌}
use raspberrypimodules.Prelude.Ledger.{Resource, release}
use raspberrypimodules.Prelude.Errno.{Ret, Errno}
use raspberrypimodules.Dma.Engine.{
  Engine, Outcome, returned, blocked, fault, user_bytes, sdma_buffer_size,
}

-- A mapping of one of the two buffers.
pub data Mapping : Type 0 where
  src dst : Mapping

abbrev same_mapping : Mapping → Mapping → Bool
same_mapping Mapping.src Mapping.src = true
same_mapping Mapping.dst Mapping.dst = true
same_mapping a b = false

instance abbrev pub mapping_resource : Resource Mapping
mapping_resource = record { same = same_mapping }

-- `struct dma_private`: the buffers, and what is mapped of them.
pub record DmaPrivate : Type 0 where
  pub wbuf : List ℕ
  pub rbuf : List ℕ
  pub mapped : List Mapping

-- The comparison of the first bytes, and the result.
unfoldable pub compare_buffers : (count : ℕ) → DmaPrivate → Outcome DmaPrivate
compare_buffers count d =
    if get_or d.rbuf 0 0 == get_or d.wbuf 0 0
    then returned (Ret.value count) d
    else returned (Ret.error Errno.einval) d

-- `dma_unmap_single` of both buffers.
unfoldable pub unmap_both : DmaPrivate → Option DmaPrivate
unmap_both d = do
  m1 ← release Mapping.src d.mapped
  m2 ← release Mapping.dst m1
  some (record d { mapped = m2 })

abbrev pub or_fault : Option DmaPrivate → (DmaPrivate → Outcome DmaPrivate) → Outcome DmaPrivate
or_fault none f = fault
or_fault (some d) f = f d

-- The transaction is issued and awaited; the engine moves `wbuf` to `rbuf`.
unfoldable pub issue_and_wait : Engine → (count : ℕ) → DmaPrivate → Outcome DmaPrivate
issue_and_wait engine count d =
    let e = record d { rbuf = engine.moved d.wbuf d.rbuf } in
    if engine.finishes then or_fault (unmap_both e) (compare_buffers count) else blocked d

-- `dmaengine_submit`, on a descriptor that may be NULL.
unfoldable pub submit : Engine → (count : ℕ) → DmaPrivate → Outcome DmaPrivate
submit engine count d =
    if not engine.prepared
    then fault
    else (if engine.submit_error
        then returned (Ret.error Errno.einval) d
        else issue_and_wait engine count d)

-- `dma_map_single` of both buffers.
abbrev pub map_both : DmaPrivate → DmaPrivate
map_both d = record d { mapped = Mapping.dst ∷ Mapping.src ∷ d.mapped }

-- `sdma_write`, with the number of bytes that `copy_from_user` gets over.
unfoldable pub sdma_write : Engine → (got : ℕ) → (buf : List ℕ) → DmaPrivate → Outcome DmaPrivate
sdma_write engine got buf d =
    let count = length buf in
    let e = record d { wbuf = memcpy d.wbuf (user_bytes got buf) count } in
    if ltb sdma_buffer_size count
    then fault
    else (if ltb got count
        then returned (Ret.error Errno.efault) e
        else submit engine count (map_both e))
