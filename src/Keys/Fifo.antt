-- ===== src/Keys/Fifo.antt =====
-- wait_int_dev/sleep_module.c: interrupts and reads in any order.
use raspberrypimodules.Prelude.{
  ℕ, ◌<◌, ◌≡◌, refl, sym, ◌∙◌, ap, subst, true, false, List, [], ◌∷◌, ◌++◌, length,
}
use raspberrypimodules.Prelude.Int.{ℤ}
use raspberrypimodules.Keys.Device.{State, Outcome, letter, hello_keys_isr, my_dev_read}
use raspberrypimodules.Keys.Queue.{
  Sound, queue, hello_keys_isr-Sound, hello_keys_isr-queue, my_dev_read-empty, my_dev_read-queue,
}

-- An interrupt with the value of the pin, or a read whose copy succeeds.
pub data Event : Type 0 where
  key : ℤ → Event
  reads : Event

-- What the user has got so far, and the state; a read that sleeps on waits for a later one.
abbrev after_read : List ℕ → State → Outcome → List ℕ × State
after_read got s Outcome.sleeps = (got, s)
after_read got s (Outcome.returns r bytes moved t) = (got ++ bytes, t)

unfoldable pub run : List Event → List ℕ → State → List ℕ × State
run [] got s = (got, s)
run (Event.key val ∷ rest) got s = run rest got (hello_keys_isr val s)
run (Event.reads ∷ rest) got s =
    let (more, t) = after_read got s (my_dev_read false true s) in run rest more t

-- The same for an ideal queue.
abbrev pub fifo : List Event → List ℕ → List ℕ → List ℕ × List ℕ
fifo [] got q = (got, q)
fifo (Event.key val ∷ rest) got q = fifo rest got (q ++ (letter val ∷ []))
fifo (Event.reads ∷ rest) got [] = fifo rest got []
fifo (Event.reads ∷ rest) got (x ∷ q) = fifo rest (got ++ (x ∷ 10 ∷ [])) q

-- No interrupt comes while 255 states wait.
abbrev pub Fits : List Event → List ℕ → Type 0
Fits [] q = Unit {0}
Fits (Event.key val ∷ rest) q = (length q < 255) × Fits rest (q ++ (letter val ∷ []))
Fits (Event.reads ∷ rest) [] = Fits rest []
Fits (Event.reads ∷ rest) (x ∷ q) = Fits rest q

-- The same bytes for the user, and the same queue.
abbrev pub Agrees : List ℕ × State → List ℕ × List ℕ → Type 0
Agrees (got, s) (expected, q) = (got ≡ expected) × (queue s ≡ q)

-- While no interrupt comes when 255 states wait, interrupts and reads in any order give the user the
-- key states in the order of the interrupts, each once, and leave the rest in the queue.
pub run-fifo :
    (events : List Event) (got q : List ℕ) (s : State)
    → Sound s
    → queue s ≡ q
    → Fits events q
    → Agrees (run events got s) (fifo events got q)
unfolding run
run-fifo [] got q s i e fits = (refl, e)
run-fifo (Event.key val ∷ rest) got q s i e (room, fits) =
    let few : length (queue s) < 255 = subst (λ l. length l < 255) (sym e) room in
    run-fifo rest got (q ++ (letter val ∷ [])) (hello_keys_isr val s) (hello_keys_isr-Sound val s i)
      (hello_keys_isr-queue val s i few ∙ ap (λ l. l ++ (letter val ∷ [])) e) fits
run-fifo (Event.reads ∷ rest) got [] s i e fits =
    subst (λ o. Agrees (run rest (after_read got s o).0 (after_read got s o).1) (fifo rest got []))
      (sym (my_dev_read-empty false true s i e)) (run-fifo rest got [] s i e fits)
run-fifo (Event.reads ∷ rest) got (x ∷ q) s i e fits =
    let (t, returned, sound, left) = my_dev_read-queue x q false s i e in
    subst
      (λ o.
        Agrees (run rest (after_read got s o).0 (after_read got s o).1)
          (fifo rest (got ++ (x ∷ 10 ∷ [])) q))
      (sym returned) (run-fifo rest (got ++ (x ∷ 10 ∷ [])) q t sound left fits)
