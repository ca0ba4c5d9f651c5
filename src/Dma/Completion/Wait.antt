-- ===== src/Dma/Completion/Wait.antt =====
-- dma/dma_m2m.c: which writers come out of `wait_for_completion`.
use raspberrypimodules.Prelude.{
  ℕ, zero, suc, ◌+◌, ◌<◌, ◌≤◌, ◌≡◌, refl, sym, subst, List, [], ◌∷◌, arith,
}
use raspberrypimodules.Dma.Completion.{Place, Channel, Event, proceed, complete, step, run}

-- What a writer still wants of the count, and what it will still add to it.
abbrev wants : Place → ℕ
wants Place.finished = 0
wants other = 1

abbrev adds : Place → ℕ
adds Place.starting = 1
adds Place.prepared = 1
adds other = 0

-- More is wanted than there is or will be.
abbrev Short : Channel → Type 0
Short c = c.done + c.issued + adds c.first + adds c.second < wants c.first + wants c.second

proceed-less :
    (p : Place) (done issued : ℕ)
    → let (q, d, i) = proceed p done issued in
      d + i + adds q + wants p ≤ done + issued + adds p + wants q
unfolding proceed
proceed-less Place.starting done issued = omega arith
proceed-less Place.prepared done issued = omega arith
proceed-less Place.waiting zero issued = omega arith
proceed-less Place.waiting (suc n) issued = omega arith
proceed-less Place.finished done issued = omega arith

step-Short : (e : Event) (c : Channel) → Short c → Short (step e c)
unfolding step
step-Short Event.first c s = omega (arith, proceed-less c.first c.done c.issued)
step-Short Event.second c s = omega (arith, proceed-less c.second c.done c.issued)
step-Short Event.callback c s = callback c.issued refl
  where
    callback :
        (n : ℕ)
        → c.issued ≡ n
        → Short (record c { done = (complete c.done n).0; issued = (complete c.done n).1 })
    callback zero e = omega arith
    callback (suc n) e = omega arith

run-Short : (es : List Event) (c : Channel) → Short c → Short (run es c)
unfolding run
run-Short [] c s = s
run-Short (e ∷ es) c s = run-Short es (step e c) (step-Short e c s)

abbrev one_late : Channel
one_late = record { done = 0; issued = 0; first = Place.waiting; second = Place.prepared }

-- If one writer starts after the transaction of the other is over, but before the other has seen that, then its
-- `init_completion` takes the count back: whatever follows, one of the two waits for ever.
pub run-lost :
    (n : ℕ) (es : List Event)
    → let c =
        run
          (Event.second ∷ es)
          (record { done = n; issued = 0; first = Place.waiting; second = Place.starting }) in
      ¬ ((c.first ≡ Place.finished) × (c.second ≡ Place.finished))
unfolding run step proceed
run-lost n es (a, b) =
    let s = run-Short es one_late (omega arith) in
    let none_short = rw a at (rw b at s) in absurd (omega arith)

-- A writer whose rival is through: what the count and the transactions are at its places.
abbrev Alone : Place → (done issued : ℕ) → Type 0
Alone Place.starting done issued = issued ≡ 0
Alone Place.prepared done issued = (done ≡ 0) × (issued ≡ 0)
Alone Place.waiting done issued = done + issued ≡ 1
Alone Place.finished done issued = Unit {0}

abbrev IsAlone : Channel → Type 0
IsAlone c = Alone c.first c.done c.issued × (c.second ≡ Place.finished)

proceed-Alone :
    (p : Place) (done issued : ℕ)
    → Alone p done issued
    → let (q, d, i) = proceed p done issued in Alone q d i
unfolding proceed
proceed-Alone Place.starting done issued a = (refl, a)
proceed-Alone Place.prepared done issued a = omega arith
proceed-Alone Place.waiting zero issued a = a
proceed-Alone Place.waiting (suc n) issued a = tt
proceed-Alone Place.finished done issued a = tt

complete-Alone :
    (p : Place) (done issued : ℕ)
    → Alone p done issued
    → Alone p (complete done issued).0 (complete done issued).1
complete-Alone p done zero a = a
complete-Alone Place.starting done (suc n) a = absurd (omega arith)
complete-Alone Place.prepared done (suc n) a = absurd (omega arith)
complete-Alone Place.waiting done (suc n) a = omega arith
complete-Alone Place.finished done (suc n) a = tt

step-IsAlone : (e : Event) (c : Channel) → IsAlone c → IsAlone (step e c)
unfolding step proceed
step-IsAlone Event.first c (a, f) = (proceed-Alone c.first c.done c.issued a, f)
step-IsAlone Event.second c (a, f) = rw f (a, refl)
step-IsAlone Event.callback c (a, f) = (complete-Alone c.first c.done c.issued a, f)

run-IsAlone : (es : List Event) (c : Channel) → IsAlone c → IsAlone (run es c)
unfolding run
run-IsAlone [] c a = a
run-IsAlone (e ∷ es) c a = run-IsAlone es (step e c) (step-IsAlone e c a)

-- The three steps of a writer, with the end of its transaction before the last.
abbrev pub last_steps : List Event
last_steps = Event.first ∷ Event.first ∷ Event.callback ∷ Event.first ∷ []

run-last_steps :
    (p : Place) (done issued : ℕ)
    → Alone p done issued
    → (run last_steps
        (record { done = done; issued = issued; first = p; second = Place.finished })).first
      ≡ Place.finished
unfolding run step proceed
run-last_steps Place.starting done zero a = refl
run-last_steps Place.starting done (suc n) a = absurd (omega arith)
run-last_steps Place.prepared zero zero a = refl
run-last_steps Place.prepared (suc n) issued a = absurd (omega arith)
run-last_steps Place.prepared zero (suc n) a = absurd (omega arith)
run-last_steps Place.waiting zero zero a = absurd (omega arith)
run-last_steps Place.waiting zero (suc n) a = refl
run-last_steps Place.waiting (suc n) zero a = refl
run-last_steps Place.waiting (suc n) (suc m) a = absurd (omega arith)
run-last_steps Place.finished done zero a = refl
run-last_steps Place.finished done (suc n) a = refl

-- A writer that has the device for itself, while no transaction is under way: whatever it and the engine have
-- done by then, when both go on it comes out of the wait.
pub run-alone :
    (n : ℕ) (es : List Event)
    → (run last_steps (
        run es
          (record { done = n; issued = 0; first = Place.starting; second = Place.finished }))).first
      ≡ Place.finished
run-alone n es =
    let start : Channel = record {
      done = n;
      issued = 0;
      first = Place.starting;
      second = Place.finished;
    } in
    let (a, f) = run-IsAlone es start (refl, refl) in
    let c = run es start in
    subst (λ (q : Place). (run last_steps (record c { second = q })).first ≡ Place.finished) (sym f)
      (run-last_steps c.first c.done c.issued a)
