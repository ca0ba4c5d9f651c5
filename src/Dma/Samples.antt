-- ===== src/Dma/Samples.antt =====
-- Engines for the tests of dma/: one that carries out its transactions, and one that refuses them.
use raspberrypimodules.Prelude.{
  ℕ, ◌≡◌, refl, true, false, List, length, replicate, length-replicate,
}
use raspberrypimodules.Dma.Engine.{Engine, Works, sdma_buffer_size}

abbrev pub working : Engine
working = record { prepared = true; submit_error = false; moved = λ src dst. src; finishes = true }

pub working-Works : Works working
working-Works = record {
  prepared = refl;
  submitted = refl;
  copies = λ src dst h. refl;
  finishes = refl;
}

abbrev pub refusing : Engine
refusing = record working { submit_error = true }

abbrev pub zeros : List ℕ
zeros = replicate sdma_buffer_size 0

pub length-zeros : length zeros ≡ sdma_buffer_size
length-zeros = length-replicate {A = ℕ} sdma_buffer_size 0
