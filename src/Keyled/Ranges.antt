-- ===== src/Keyled/Ranges.antt =====
-- keyled/keyled_rpi_class.c: parts with consecutive numbers, held and given back.
use raspberrypimodules.Prelude.{
  ℕ, zero, suc, ◌+◌, ◌<◌, ◌≡◌, refl, ap, ◌∙◌, true, false, ◌∷◌, some, arith,
}
use raspberrypimodules.Prelude.Options.{◌>>=◌}
use raspberrypimodules.Prelude.Ledger.{release}
use raspberrypimodules.Keyled.Probe.{Part, part_resource, same_part, Held, hold_from, release_from}

-- Parts that their numbers tell apart.
pub record Apart (f : ℕ → Part) : Type 0 where
  pub own : (i : ℕ) → same_part (f i) (f i) ≡ true
  pub others : (i j : ℕ) → i < j → same_part (f i) (f j) ≡ false

pub number-Apart : Apart Part.number
number-Apart = record { own = λ i. ground arith; others = λ i j lt. ground arith }

pub device-Apart : Apart Part.device
device-Apart = record { own = λ i. ground arith; others = λ i j lt. ground arith }

module _ {f : ℕ → Part} (apart : Apart f) where
  -- A part is found behind later ones.
  release-hold_from :
      (left i j : ℕ) (h h' : Held)
      → i < j
      → release (f i) h ≡ some h'
      → release (f i) (hold_from f left j h) ≡ some (hold_from f left j h')
  unfolding hold_from
  release-hold_from zero i j h h' lt e = e
  release-hold_from (suc left) i j h h' lt e =
      release-hold_from left i (suc j) (f j ∷ h) (f j ∷ h') (omega arith)
        (rw (apart.others i j lt, e) refl)

  release_first : (i : ℕ) (h : Held) → release (f i) (f i ∷ h) ≡ some h
  release_first i h = rw (apart.own i) refl

  -- What is held is given back.
  pub release_from-hold_from :
      (left i : ℕ) (h : Held) → release_from f left i (hold_from f left i h) ≡ some h
  unfolding release_from hold_from
  release_from-hold_from zero i h = refl
  release_from-hold_from (suc left) i h =
      ap (λ m. m >>= λ x. release_from f left (suc i) x)
        (release-hold_from left i (suc i) (f i ∷ h) h (omega arith) (release_first i h))
      ∙ release_from-hold_from left (suc i) h

  pub hold_from-last :
      (left i : ℕ) (h : Held) → hold_from f (suc left) i h ≡ f (left + i) ∷ hold_from f left i h
  unfolding hold_from
  hold_from-last zero i h = ap (λ n. f n ∷ h) (omega arith)
  hold_from-last (suc left) i h =
      hold_from-last left (suc i) (f i ∷ h)
      ∙ ap (λ n. f n ∷ hold_from f left (suc i) (f i ∷ h)) (omega arith)
