-- ===== src/Prelude/Ledger.antt =====
-- What a driver has acquired from the kernel and must give back, the latest first.
use mathlib.Core.Bool.{Bool}
use mathlib.Core.Option.{Option, none, some}
use mathlib.Core.List.{List, [], ◌∷◌}
use raspberrypimodules.Prelude.Tests.{if◌then◌else◌}

-- Resources that can be told apart.
pub record Resource {ℓ} (R : Type ℓ) : Type ℓ where
  pub same : R → R → Bool

module _ {ℓ} {R : Type ℓ} ⦃resource : Resource R⦄ where
  abbrev later : R → Option (List R) → Option (List R)
  later r none = none
  later r (some h) = some (r ∷ h)

  -- A resource is given back; none where it is not held.
  abbrev pub release : R → List R → Option (List R)
  release r [] = none
  release r (x ∷ held) =
      let rest = later x (release r held) in if resource.same r x then some held else rest
