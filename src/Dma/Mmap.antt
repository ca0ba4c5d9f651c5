-- ===== src/Dma/Mmap.antt =====
-- dma/dma_mmap.c: the buffers are allocated by open, mapped into the user's memory, and copied and freed by
-- ioctl; and dma/sdma_ioctl/sdma.c, the program that uses them.
pub mod Program
pub mod Twice
mod Tests
use raspberrypimodules.Prelude.{
  ℕ, zero, suc, ◌+◌, ◌-◌, ◌*◌, ◌/◌, Bool, true, false, List, [], ◌∷◌, ◌++◌, Option, none, some,
  ◌==◌, ltb, if◌then◌else◌, not, length, get_or, memcpy, replicate,
}
use raspberrypimodules.Prelude.Options.{◌>>=◌}
use raspberrypimodules.Prelude.Strings.{c_string}
use raspberrypimodules.Prelude.Errno.{Ret, Errno}
use raspberrypimodules.Dma.Engine.{Engine, Outcome, returned, blocked, fault, sdma_buffer_size}

-- The blocks that are allocated, with their addresses.
abbrev pub Heap : Type 0
Heap = List (ℕ × List ℕ)

-- The bytes of a block; none where the address has none.
abbrev pub load : ℕ → Heap → Option (List ℕ)
load p [] = none
load p ((q, bytes) ∷ heap) = let rest = load p heap in if q == p then some bytes else rest

abbrev pub store : ℕ → List ℕ → Heap → Heap
store p new [] = []
store p new ((q, bytes) ∷ heap) =
    let rest = store p new heap in if q == p then (q, new) ∷ heap else (q, bytes) ∷ rest

abbrev put_back : ℕ × List ℕ → Option Heap → Option Heap
put_back b none = none
put_back b (some heap) = some (b ∷ heap)

-- `kfree`; none where the address is no block.
abbrev pub kfree : ℕ → Heap → Option Heap
kfree p [] = none
kfree p ((q, bytes) ∷ heap) =
    let rest = put_back (q, bytes) (kfree p heap) in if q == p then some heap else rest

-- The pointers of `struct dma_private`, 0 for NULL, the bus addresses of the two, those that are mapped, the blocks, and what
-- the messages at the end of `sdma_ioctl` print of `wbuf` and `rbuf`, the latest first.
pub record DmaPrivate : Type 0 where
  pub wbuf : ℕ
  pub rbuf : ℕ
  pub dma_src : ℕ
  pub dma_dst : ℕ
  pub mapped : List ℕ
  pub heap : Heap
  pub printed : List (List ℕ × List ℕ)

-- A block of zeros at the address that `kzalloc` finds.
abbrev pub new_block : ℕ → Heap → Heap
new_block p heap = (p, replicate sdma_buffer_size 0) ∷ heap

-- `dma_map_single` of `wbuf`. Bus addresses are the kernel's, as the page number in `sdma_mmap` takes them.
abbrev pub map_wbuf : DmaPrivate → DmaPrivate
map_wbuf d = record d { dma_src = d.wbuf; mapped = d.wbuf ∷ d.mapped }

abbrev pub map_rbuf : DmaPrivate → DmaPrivate
map_rbuf d = record d { dma_dst = d.rbuf; mapped = d.rbuf ∷ d.mapped }

-- `sdma_open`, with the addresses of the blocks that it gets.
unfoldable pub open_rbuf : Option ℕ → DmaPrivate → Ret × DmaPrivate
open_rbuf none d = (Ret.error Errno.enomem, record d { rbuf = 0 })
open_rbuf (some r) d = (Ret.value 0, map_wbuf (record d { rbuf = r; heap = new_block r d.heap }))

unfoldable pub sdma_open : (w r : Option ℕ) → DmaPrivate → Ret × DmaPrivate
sdma_open none r d = (Ret.error Errno.enomem, record d { wbuf = 0 })
sdma_open (some w) r d = open_rbuf r (record d { wbuf = w; heap = new_block w d.heap })

abbrev put_first : ℕ → Option (List ℕ) → Option (List ℕ)
put_first q none = none
put_first q (some ms) = some (q ∷ ms)

-- `dma_unmap_single`, in the direction of the mapping; none where the address is not mapped.
abbrev pub unmap : ℕ → List ℕ → Option (List ℕ)
unmap p [] = none
unmap p (q ∷ mapped) =
    let rest = put_first q (unmap p mapped) in if q == p then some mapped else rest

abbrev pub or_fault {ℓ} : {A : Type ℓ} → Option A → (A → Outcome DmaPrivate) → Outcome DmaPrivate
or_fault none f = fault
or_fault (some a) f = f a

-- The end of `sdma_ioctl`: both buffers are printed and freed. Their pointers stay.
unfoldable pub free_buffers : (w r : List ℕ) → DmaPrivate → Outcome DmaPrivate
free_buffers w r d =
    or_fault (do h ← kfree d.rbuf d.heap; kfree d.wbuf h)
      λ heap.
        returned (Ret.value 0)
          (record d { heap = heap; printed = (c_string w, c_string r) ∷ d.printed })

-- The comparison of the first bytes.
unfoldable pub compare_buffers : (w r : List ℕ) → DmaPrivate → Outcome DmaPrivate
compare_buffers w r d =
    if get_or r 0 0 == get_or w 0 0 then free_buffers w r d else returned (Ret.error Errno.einval) d

-- The engine moves the bytes of `wbuf` to `rbuf`; then both are unmapped.
unfoldable pub move_and_wait : Engine → (w r : List ℕ) → DmaPrivate → Outcome DmaPrivate
move_and_wait engine w r d =
    let e = record d { heap = store d.rbuf (engine.moved w r) d.heap } in
    if engine.finishes
    then or_fault (do m ← unmap d.dma_src e.mapped; unmap d.dma_dst m)
        (λ m. compare_buffers w (engine.moved w r) (record e { mapped = m }))
    else blocked d

-- `dmaengine_submit`, on a descriptor that may be NULL. The transaction uses both blocks.
unfoldable pub submit : Engine → DmaPrivate → Outcome DmaPrivate
submit engine d =
    if not engine.prepared
    then fault
    else (if engine.submit_error
        then returned (Ret.error Errno.einval) d
        else or_fault (load d.wbuf d.heap)
            (λ w. or_fault (load d.rbuf d.heap) (λ r. move_and_wait engine w r d)))

-- `sdma_ioctl`
unfoldable pub sdma_ioctl : Engine → DmaPrivate → Outcome DmaPrivate
sdma_ioctl engine d = submit engine (map_rbuf (map_wbuf d))

abbrev pub page_size : ℕ
page_size = 4096

-- `sdma_mmap`: where the user's page is, if `remap_pfn_range` succeeds.
unfoldable pub sdma_mmap : (remapped : Bool) → DmaPrivate → Ret × Option ℕ
sdma_mmap true d = (Ret.value 0, some (d.dma_src / page_size * page_size))
sdma_mmap false d = (Ret.error Errno.eagain, none)

-- `strcpy` to the user's page.
abbrev pub user_strcpy : ℕ → List ℕ → DmaPrivate → Option DmaPrivate
user_strcpy page phrase d = do
  old ← load page d.heap
  let new = phrase ++ (0 ∷ [])
  some (record d { heap = store page (memcpy old new (length new)) d.heap })

-- `main` of the program behind `mmap`: none where the page is not there.
unfoldable pub use_page : Engine → List ℕ → Ret × Option ℕ → DmaPrivate → Outcome DmaPrivate
use_page engine phrase (r, none) d = fault
use_page engine phrase (r, some page) d =
    or_fault (user_strcpy page phrase d) λ e. sdma_ioctl engine e

-- The string in an array, up to its NUL; none where it has none.
abbrev pub string_in : List ℕ → Option (List ℕ)
string_in [] = none
string_in (zero ∷ rest) = some []
string_in (suc c ∷ rest) = do text ← string_in rest; some (suc c ∷ text)

-- `scanf("%[^\n]%*c", phrase)` for the line that is typed, and the string that the array of SDMA_BUFFER_SIZE
-- bytes then has: an empty line stores nothing and leaves what the stack held; none is an access past the array.
unfoldable pub scan_phrase : (stack line : List ℕ) → Option (List ℕ)
scan_phrase stack [] = string_in stack
scan_phrase stack (c ∷ line) =
    if ltb (length (c ∷ line)) sdma_buffer_size then some (c ∷ line) else none

-- `main` behind `scanf`.
abbrev pub use_phrase :
    Engine → (remapped : Bool) → Option (List ℕ) → DmaPrivate → Outcome DmaPrivate
use_phrase engine remapped none d = fault
use_phrase engine remapped (some phrase) d = use_page engine phrase (sdma_mmap remapped d) d

-- `main` behind `open`.
unfoldable pub use_device :
    Engine → (remapped : Bool) → (stack line : List ℕ) → Ret × DmaPrivate → Outcome DmaPrivate
use_device engine remapped stack line (Ret.error e, d) = returned (Ret.error e) d
use_device engine remapped stack line (Ret.value n, d) =
    use_phrase engine remapped (scan_phrase stack line) d

-- `main`, up to the result of the ioctl, with what the array holds before `scanf`.
unfoldable pub main_program :
    Engine
    → (w r : Option ℕ) → (remapped : Bool) → (stack line : List ℕ) → DmaPrivate
    → Outcome DmaPrivate
main_program engine w r remapped stack line d =
    use_device engine remapped stack line (sdma_open w r d)
