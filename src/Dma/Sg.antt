-- ===== src/Dma/Sg.antt =====
-- dma/dma_sg.c: three buffers are to be copied by one transaction, and a user's text by another.
pub mod Move
pub mod Probe
mod Tests
use raspberrypimodules.Prelude.{
  ℕ, ◌+◌, ◌-◌, ◌*◌, Bool, true, false, ◌&&◌, List, [], ◌∷◌, Option, none, some, ◌==◌, ltb, leb,
  if◌then◌else◌, not, length, get_or, memcpy,
}
use raspberrypimodules.Prelude.Errno.{Ret, Errno}
use raspberrypimodules.Dma.Engine.{
  Engine, Outcome, returned, blocked, fault, user_bytes, sdma_buffer_size,
}

-- The memory of the kernel, by words of four bytes.
abbrev pub Memory : Type 0
Memory = ℕ → ℕ

-- `SDMA_BUFFER_SIZE / 4`
abbrev pub words : ℕ
words = 1024

-- The DMA engine on the memory, for the first transaction: whether it gives a descriptor, whether the
-- submission fails, the memory behind a copy of `n` words, and whether the callback is called.
pub record Mover : Type 0 where
  pub prepared : Bool
  pub submit_error : Bool
  pub move : (dst src n : ℕ) → Memory → Memory
  pub finishes : Bool

-- The static variables: the addresses of the six buffers, the memory, the two coherent buffers, and which of
-- the four scatter lists are mapped.
pub record Sdma : Type 0 where
  pub wbuf : ℕ
  pub wbuf2 : ℕ
  pub wbuf3 : ℕ
  pub rbuf : ℕ
  pub rbuf2 : ℕ
  pub rbuf3 : ℕ
  pub mem : Memory
  pub src_coherent : List ℕ
  pub dst_coherent : List ℕ
  pub mapped_sg : Bool
  pub mapped_coherent : Bool

-- A loop that sets each word of a buffer.
abbrev pub fill : (address value : ℕ) → Memory → Memory
fill address value mem x = if leb address x && ltb x (address + words) then value else mem x

abbrev pub fill_buffers : Sdma → Sdma
fill_buffers s = record s {
  mem = fill s.wbuf3 0xabcdef12 (fill s.wbuf2 0x87654321 (fill s.wbuf 0x12345678 s.mem));
}

abbrev pub map_lists : Sdma → Sdma
map_lists s = record s { mapped_sg = true; mapped_coherent = true }

-- The comparison of the first bytes of the coherent buffers.
unfoldable pub compare_coherent : (count : ℕ) → Sdma → Outcome Sdma
compare_coherent count s =
    if get_or s.src_coherent 0 0 == get_or s.dst_coherent 0 0
    then returned (Ret.value count) s
    else returned (Ret.error Errno.einval) s

-- The second transaction: the user's text.
unfoldable pub second_transaction : Engine → (count : ℕ) → Sdma → Outcome Sdma
second_transaction engine count s =
    if not engine.prepared
    then fault
    else (if engine.submit_error
        then returned (Ret.error Errno.einval) s
        else (if engine.finishes
            then compare_coherent count (record s {
              dst_coherent = engine.moved s.src_coherent s.dst_coherent;
              mapped_coherent = false;
            })
            else blocked s))

-- The first transaction: three times the size of a buffer, from the first address of a list to the first of
-- the other. The loops behind it compare the buffers and print; they return nothing.
unfoldable pub first_transaction : Mover → Engine → (count : ℕ) → Sdma → Outcome Sdma
first_transaction mover engine count s =
    if not mover.prepared
    then fault
    else (if mover.submit_error
        then returned (Ret.error Errno.einval) s
        else (if mover.finishes
            then second_transaction engine count
                (record s { mem = mover.move s.rbuf s.wbuf (3 * words) s.mem; mapped_sg = false })
            else blocked s))

-- `sdma_write`, with the number of bytes that `copy_from_user` gets over.
unfoldable pub sdma_write : Mover → Engine → (got : ℕ) → (buf : List ℕ) → Sdma → Outcome Sdma
sdma_write mover engine got buf s =
    let count = length buf in
    let f = fill_buffers s in
    let e = record f { src_coherent = memcpy f.src_coherent (user_bytes got buf) count } in
    if ltb sdma_buffer_size count
    then fault
    else (if ltb got count
        then returned (Ret.error Errno.efault) e
        else first_transaction mover engine count (map_lists e))
