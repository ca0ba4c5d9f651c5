-- ===== src/Prelude/Words.antt =====
-- The 32-bit `int` of C as its two's complement pattern, a number below 2 ^ 32.
use Prim.Native.Nat.{ℕ, ◌+◌, ◌-◌, ◌*◌, ◌%◌}
use mathlib.Core.Bool.{Bool, not, ◌&&◌}
use raspberrypimodules.Prelude.Tests.{ltb}

abbrev pub int_mod : ℕ
int_mod = 4294967296

abbrev pub int_min : ℕ
int_min = 2147483648

-- Whether the sign bit is set.
abbrev pub negative : ℕ → Bool
negative a = not (ltb a int_min)

abbrev pub int_add : ℕ → ℕ → ℕ
int_add a b = (a + b) % int_mod

abbrev pub int_sub : ℕ → ℕ → ℕ
int_sub a b = (a + (int_mod - b % int_mod)) % int_mod

abbrev pub int_mul : ℕ → ℕ → ℕ
int_mul a b = a * b % int_mod

-- The signed comparison.
abbrev pub int_lt : ℕ → ℕ → Bool
int_lt a b = ltb ((a + int_min) % int_mod) ((b + int_min) % int_mod)

-- `long long < int` for a number that is not negative.
abbrev pub below_int : ℕ → ℕ → Bool
below_int n a = not (negative a) && ltb n a
