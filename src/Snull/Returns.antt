-- ===== src/Snull/Returns.antt =====
-- Total correctness of a command: no fault, and a postcondition.
use mathlib.Core.Path.{◌≡◌, subst}
use raspberrypimodules.Snull.Types.{World}
use raspberrypimodules.Snull.Monad.{Run, ok, fault, Cmd, and_then}

pub data Returns {A : Type 0} (P : A → World → Type 0) : Run A → Type 0 where
  returns : {a : A} {w : World} → P a w → Returns P (ok a w)

module _ {A : Type 0} {P : A → World → Type 0} where
  pub bind :
      {B : Type 0} {Q : B → World → Type 0} {r : Run A} {k : A → Cmd B}
      → Returns P r
      → ((a : A) (w : World) → P a w → Returns Q (k a w))
      → Returns Q (and_then r k)
  bind (returns p) next = next _ _ p

  pub mono :
      {Q : A → World → Type 0} {r : Run A}
      → Returns P r
      → ((a : A) (w : World) → P a w → Q a w)
      → Returns Q r
  mono (returns p) weaken = returns (weaken _ _ p)

-- The postcondition at a result that is known.
abbrev After : {A : Type 0} → (A → World → Type 0) → Run A → Type 0
After P (ok a w) = P a w
After P (fault f) = ⊥

Returns-After : {A : Type 0} (P : A → World → Type 0) {r : Run A} → Returns P r → After P r
Returns-After P (returns p) = p

pub at :
    {A : Type 0} (P : A → World → Type 0) {r : Run A} {a : A} {w : World}
    → Returns P r
    → r ≡ ok a w
    → P a w
at P h e = subst (After P) e (Returns-After P h)
