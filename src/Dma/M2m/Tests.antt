-- ===== src/Dma/M2m/Tests.antt =====
-- The theorems on dma/dma_m2m.c at short writes and at a probe that fails.
use raspberrypimodules.Prelude.{◌≡◌, List, ℕ, [], ◌∷◌, arith, memcpy}
use raspberrypimodules.Prelude.Errno.{Ret}
use raspberrypimodules.Dma.Engine.{returned}
use raspberrypimodules.Dma.Samples.{working, working-Works, zeros, length-zeros}
use raspberrypimodules.Dma.M2m.{DmaPrivate, sdma_write}
use raspberrypimodules.Dma.M2m.Write.{Allocated, sdma_write-Works}

abbrev probed : DmaPrivate
probed = record { wbuf = zeros; rbuf = zeros; mapped = [] }

probed-Allocated : Allocated probed
probed-Allocated = record { wbuf = length-zeros; rbuf = length-zeros }

abbrev text : List ℕ
text = 104 ∷ 105 ∷ 10 ∷ []

sdma_write-Works_example :
    sdma_write working 3 text probed
    ≡ returned
        (Ret.value 3)
        (record probed { wbuf = memcpy zeros text 3; rbuf = memcpy zeros text 3 })
sdma_write-Works_example =
    sdma_write-Works {engine = working} 3 text probed working-Works probed-Allocated (omega arith)
      (omega arith)
