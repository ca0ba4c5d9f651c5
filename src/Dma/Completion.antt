-- ===== src/Dma/Completion.antt =====
-- dma/dma_m2m.c: the completion that all writers of the device share, as `sdma_write` and
-- `dma_m2m_callback` use it.
pub mod Wait
mod Tests
use raspberrypimodules.Prelude.{ℕ, zero, suc, List, [], ◌∷◌}

-- Where a writer is in `sdma_write`: before `init_completion`, before `dmaengine_submit`, before the end of
-- `wait_for_completion`, and behind it.
pub data Place : Type 0 where
  starting prepared waiting finished : Place

-- The count of `dma_m2m_ok`, the transactions that are issued and not carried out, and two writers.
pub record Channel : Type 0 where
  pub done : ℕ
  pub issued : ℕ
  pub first : Place
  pub second : Place

-- `wait_for_completion` takes one from the count, or waits.
abbrev pub wake : ℕ → Place × ℕ
wake zero = (Place.waiting, zero)
wake (suc n) = (Place.finished, n)

-- The next step of a writer: its place, the count, and the transactions.
unfoldable pub proceed : Place → (done issued : ℕ) → Place × ℕ × ℕ
proceed Place.starting done issued = (Place.prepared, 0, issued)
proceed Place.prepared done issued = (Place.waiting, done, suc issued)
proceed Place.waiting done issued = ((wake done).0, (wake done).1, issued)
proceed Place.finished done issued = (Place.finished, done, issued)

-- `dma_m2m_callback` at the end of a transaction, if there is one.
abbrev pub complete : (done issued : ℕ) → ℕ × ℕ
complete done zero = (done, zero)
complete done (suc n) = (suc done, n)

pub data Event : Type 0 where
  first second callback : Event

unfoldable pub step : Event → Channel → Channel
step Event.first c =
    let (p, done, issued) = proceed c.first c.done c.issued in
    record c { first = p; done = done; issued = issued }
step Event.second c =
    let (p, done, issued) = proceed c.second c.done c.issued in
    record c { second = p; done = done; issued = issued }
step Event.callback c =
    let (done, issued) = complete c.done c.issued in record c { done = done; issued = issued }

unfoldable pub run : List Event → Channel → Channel
run [] c = c
run (e ∷ es) c = run es (step e c)
