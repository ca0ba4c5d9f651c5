-- ===== src/Prelude/Strings.antt =====
-- The strings that users write to sysfs files.
use Prim.Native.Nat.{ℕ, zero, suc, ◌-◌}
use mathlib.Core.Bool.{Bool, true, false, ◌&&◌}
use mathlib.Core.List.{List, [], ◌∷◌}
use raspberrypimodules.Prelude.Tests.{◌==◌}
use raspberrypimodules.Prelude.Lists.{length, take}

-- The C string in a buffer.
abbrev pub c_string : List ℕ → List ℕ
c_string [] = []
c_string (zero ∷ buf) = []
c_string (suc c ∷ buf) = suc c ∷ c_string buf

-- `!strcmp(a, b)` for strings without the final NUL.
abbrev pub same_string : List ℕ → List ℕ → Bool
same_string [] [] = true
same_string [] (d ∷ b) = false
same_string (c ∷ a) [] = false
same_string (c ∷ a) (d ∷ b) = (c == d) && same_string a b

-- The string that a user writes, with its last byte replaced by NUL; sysfs passes on no empty buffer.
abbrev pub command : List ℕ → List ℕ
command buf = c_string (take (length buf - 1) buf)

-- "on" and "off"
abbrev pub on : List ℕ
on = 111 ∷ 110 ∷ []

abbrev pub off : List ℕ
off = 111 ∷ 102 ∷ 102 ∷ []
