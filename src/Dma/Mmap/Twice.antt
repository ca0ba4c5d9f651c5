-- ===== src/Dma/Mmap/Twice.antt =====
-- dma/dma_mmap.c: the pointers that `sdma_ioctl` leaves.
use raspberrypimodules.Prelude.{ℕ, ◌≡◌, ◌≢◌, refl, true, false, List, none, length}
use raspberrypimodules.Prelude.Errno.{Ret}
use raspberrypimodules.Dma.Engine.{Engine, Works, returned, fault}
use raspberrypimodules.Dma.Mmap.{DmaPrivate, load, sdma_ioctl, submit}
use raspberrypimodules.Dma.Mmap.Program.{opened, ended, sdma_ioctl-opened}

-- If the first of two calls of ioctl on an open device carries out its transaction, then the second, with any
-- engine that gives a descriptor and takes it, uses the blocks that the first has freed.
pub sdma_ioctl-sdma_ioctl :
    (engine other : Engine) (w r : ℕ) (wb rb : List ℕ) (d : DmaPrivate)
    → Works engine
    → other.prepared ≡ true
    → other.submit_error ≡ false
    → w ≢ r
    → length wb ≡ length rb
    → load w d.heap ≡ none
    → (sdma_ioctl engine (opened w r wb rb d) ≡ returned (Ret.value 0) (ended w r wb d))
      × (sdma_ioctl other (ended w r wb d) ≡ fault)
unfolding sdma_ioctl submit
sdma_ioctl-sdma_ioctl engine other w r wb rb d k p s distinct same fresh =
    (sdma_ioctl-opened engine w r wb rb d k distinct same, simp (p, s, fresh) refl)
