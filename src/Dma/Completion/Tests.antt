-- ===== src/Dma/Completion/Tests.antt =====
-- The theorems on the completion of dma/dma_m2m.c at short runs.
use raspberrypimodules.Prelude.{◌≡◌, [], ◌∷◌}
use raspberrypimodules.Dma.Completion.{Event, Place, run}
use raspberrypimodules.Dma.Completion.Wait.{last_steps, run-lost, run-alone}

run-lost_example :
    let c =
      run
        (Event.second ∷ Event.second ∷ Event.callback ∷ Event.first ∷ Event.second ∷ [])
        (record { done = 1; issued = 0; first = Place.waiting; second = Place.starting }) in
    ¬ ((c.first ≡ Place.finished) × (c.second ≡ Place.finished))
run-lost_example = run-lost 1 (Event.second ∷ Event.callback ∷ Event.first ∷ Event.second ∷ [])

run-alone_example :
    (run last_steps (
      run
        (Event.first ∷ Event.first ∷ Event.callback ∷ [])
        (record { done = 0; issued = 0; first = Place.starting; second = Place.finished }))).first
    ≡ Place.finished
run-alone_example = run-alone 0 (Event.first ∷ Event.first ∷ Event.callback ∷ [])
