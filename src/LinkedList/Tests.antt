-- ===== src/LinkedList/Tests.antt =====
-- The theorems on linkedlist/linkedlist_platform.c at a concrete ring.
use raspberrypimodules.Prelude.{
  ℕ, zero, suc, ◌≡◌, refl, sym, ◌∙◌, ap, Bool, true, List, [], ◌∷◌, ◌++◌, some, arith, length, not,
}
use raspberrypimodules.Prelude.Errno.{Ret, Errno}
use raspberrypimodules.Prelude.Words.{negative}
use raspberrypimodules.LinkedList.Device.{
  State, Call, initial, createlist, create_nodes, finish_list, start_list, probe, write, read, run,
  rewind,
}
use raspberrypimodules.LinkedList.Ring.{Sound, Kept}
use raspberrypimodules.LinkedList.Ring.Calls.{run-Sound, Copies, Refuses}
use raspberrypimodules.LinkedList.Contents.{written}
use raspberrypimodules.LinkedList.Contents.Write.{Complete, write-written}
use raspberrypimodules.LinkedList.Start.{made, createlist-Sound}
use raspberrypimodules.LinkedList.Echo.Roundtrip.{write-read}

-- A user's buffer that can be read, padded or cut to the region.
abbrev fit : ℕ → List ℕ → List ℕ
fit zero src = []
fit (suc n) [] = 0 ∷ fit n []
fit (suc n) (x ∷ src) = x ∷ fit n src

abbrev from_user : List ℕ → List ℕ → List ℕ × Bool
from_user dst src = (fit (length dst) src, true)

-- A user's buffer that can be written, and sizes that are not negative.
abbrev to_user : ℕ → List ℕ → Bool
to_user n src = not (negative n)

length-fit : (n : ℕ) (src : List ℕ) → length (fit n src) ≡ n
length-fit zero src = refl
length-fit (suc n) [] = ap suc (length-fit n [])
length-fit (suc n) (x ∷ src) = ap suc (length-fit n src)

fit_same : (src : List ℕ) → fit (length src) src ≡ src
fit_same [] = refl
fit_same (x ∷ src) = ap (λ l. x ∷ l) (fit_same src)

copies : Copies from_user
copies = λ dst src. length-fit (length dst) src

complete : Complete from_user
complete = λ dst src h. ap (λ n. (fit n src, true)) (sym h) ∙ ap (λ l. (l, true)) (fit_same src)

refuses : Refuses to_user
refuses = λ n src h. ap not h

-- Every block holds five times the letter x at first.
abbrev letters : ℕ → List ℕ
letters i = 120 ∷ 120 ∷ 120 ∷ 120 ∷ 120 ∷ []

sound : Sound (made letters)
unfolding probe createlist start_list finish_list create_nodes
sound = createlist-Sound letters (Ret.value 0) λ i. refl

createlist-Sound_example : Sound (probe (λ i. some (letters i)) (Ret.error Errno.ebusy) initial).1
createlist-Sound_example = createlist-Sound letters (Ret.error Errno.ebusy) λ i. refl

run-Sound_example : Kept (
    run from_user to_user
      (Call.write_call (1 ∷ 2 ∷ 3 ∷ 4 ∷ 5 ∷ 6 ∷ []) 0
        ∷ Call.write_call (6 ∷ []) 5
        ∷ Call.read_call 0
        ∷ [])
      (made letters))
run-Sound_example =
    run-Sound from_user copies to_user refuses
      (Call.write_call (1 ∷ 2 ∷ 3 ∷ 4 ∷ 5 ∷ 6 ∷ []) 0
        ∷ Call.write_call (6 ∷ []) 5
        ∷ Call.read_call 0
        ∷ [])
      (made letters) sound

write-written_example :
    (t : State) × (write from_user (made letters) (1 ∷ 2 ∷ 3 ∷ []) 0 ≡ some (Ret.value 3, t, 3))
    × (written t ≡ written (made letters) ++ (1 ∷ 2 ∷ 3 ∷ []))
write-written_example =
    write-written from_user complete (made letters) (1 ∷ 2 ∷ 3 ∷ []) 0 sound λ e. omega arith

write-read_example :
    (t : State) × (u : State) × (write from_user (rewind (made letters)) (1 ∷ 2 ∷ 3 ∷ []) 0
      ≡ some (Ret.value 3, t, 3))
    × (read (λ n src. true) t 0 ≡ some (Ret.value 3, 1 ∷ 2 ∷ 3 ∷ [], u, 3))
write-read_example =
    write-read from_user complete (λ n src. true) (λ n src h. refl) (made letters) (1 ∷ 2 ∷ 3 ∷ [])
      sound (omega arith) (omega arith)
