-- ===== src/Dma/Mmap/Tests.antt =====
-- The theorems on dma/dma_mmap.c at two blocks and a short phrase.
use raspberrypimodules.Prelude.{ℕ, ◌≡◌, refl, true, List, [], ◌∷◌, some, arith}
use raspberrypimodules.Prelude.Errno.{Ret}
use raspberrypimodules.Dma.Engine.{returned, fault}
use raspberrypimodules.Dma.Samples.{working, working-Works, zeros}
use raspberrypimodules.Dma.Mmap.{DmaPrivate, sdma_ioctl, main_program}
use raspberrypimodules.Dma.Mmap.Program.{opened, ended, main_program-copies}
use raspberrypimodules.Dma.Mmap.Twice.{sdma_ioctl-sdma_ioctl}

abbrev probed : DmaPrivate
probed = record {
  wbuf = 0;
  rbuf = 0;
  dma_src = 0;
  dma_dst = 0;
  mapped = [];
  heap = [];
  printed = [];
}

abbrev phrase : List ℕ
phrase = 104 ∷ 105 ∷ []

main_program-copies_example :
    main_program working (some 8192) (some 12288) true [] phrase probed
    ≡ returned (Ret.value 0) (record {
      wbuf = 8192;
      rbuf = 12288;
      dma_src = 8192;
      dma_dst = 12288;
      mapped = 8192 ∷ [];
      heap = [];
      printed = (phrase, phrase) ∷ [];
    })
main_program-copies_example =
    main_program-copies working 8192 12288 [] phrase probed working-Works (omega arith) refl
      (λ e. cc) (omega arith) (omega arith)

sdma_ioctl-sdma_ioctl_example :
    (sdma_ioctl working (opened 8192 12288 zeros zeros probed)
      ≡ returned (Ret.value 0) (ended 8192 12288 zeros probed))
    × (sdma_ioctl working (ended 8192 12288 zeros probed) ≡ fault)
sdma_ioctl-sdma_ioctl_example =
    sdma_ioctl-sdma_ioctl working working 8192 12288 zeros zeros probed working-Works refl refl
      (omega arith) refl refl
