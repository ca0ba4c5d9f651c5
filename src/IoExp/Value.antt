-- ===== src/IoExp/Value.antt =====
-- i2c_io/i2c_io_expander.c: what is read of what was written, and the names of the devices.
use raspberrypimodules.Prelude.{
  ℕ, zero, suc, ◌+◌, ◌-◌, ◌*◌, ◌/◌, ◌%◌, ◌≤◌, ◌<◌, ◌≡◌, ◌≢◌, refl, ap, true, List, [], ◌∷◌, ◌++◌,
  none, some, ltb, lt→ltb, le→ltb, if◌then◌else◌, arith,
}
use raspberrypimodules.Prelude.Errno.{Ret, Errno}
use raspberrypimodules.IoExp.Device.{device_name, ioexp_probe}

-- The value of a hexadecimal digit, and of the two digits of a line.
abbrev pub digit_value : ℕ → ℕ
digit_value c = if ltb c 58 then c - 48 else c - 87

abbrev pub line_value : List ℕ → ℕ
line_value (a ∷ b ∷ rest) = digit_value a * 16 + digit_value b
line_value line = 0

-- A text that `kstrtoul` reads has no NUL.
abbrev pub NoNul : List ℕ → Type 0
NoNul [] = Unit {0}
NoNul (c ∷ text) = (0 < c) × NoNul text

abbrev pub line : List ℕ → List ℕ
line text = text ++ (10 ∷ [])

device_name-injective : (n m : ℕ) → n < 100 → m < 100 → device_name n ≡ device_name m → n ≡ m
device_name-injective n m h k e =
    let tens : 48 + n / 10 ≡ 48 + m / 10 = cc in
    let ones : 48 + n % 10 ≡ 48 + m % 10 = cc in omega arith

-- The devices have different names.
abbrev pub AllDiffer : List ℕ → List (List ℕ) → Type 0
AllDiffer name [] = Unit {0}
AllDiffer name (x ∷ names) = (name ≢ x) × AllDiffer name names

-- The names of the devices below a counter, the latest first.
abbrev pub names_below : ℕ → List (List ℕ)
names_below zero = []
names_below (suc n) = device_name n ∷ names_below n

names_below-AllDiffer : (n m : ℕ) → m ≤ n → n < 100 → AllDiffer (device_name n) (names_below m)
names_below-AllDiffer n zero le h = tt
names_below-AllDiffer n (suc m) le h = (
  λ e. absurd (ne (device_name-injective n m h (omega arith) e)),
  names_below-AllDiffer n m (omega arith) h,
)
  where
    ne : n ≡ m → ⊥
    ne e = omega arith

-- The first hundred devices have different names. The probe of the next one writes past its name.
pub ioexp_probe-names :
    (n : ℕ)
    → (n < 100
        → (ioexp_probe true (record { counter = n; names = names_below n })
            ≡ some (Ret.value 0, record { counter = suc n; names = names_below (suc n) }))
          × AllDiffer (device_name n) (names_below n))
      × (100 ≤ n → ioexp_probe true (record { counter = n; names = names_below n }) ≡ none)
unfolding ioexp_probe
ioexp_probe-names n = (
  λ h. (
    rw (lt→ltb n 100 h) (
        ap (λ k. some (Ret.value 0, record { counter = k; names = names_below (suc n) }))
          (omega arith)),
    names_below-AllDiffer n n (omega arith) h,
  ),
  λ h. rw (le→ltb n 100 h) refl,
)
