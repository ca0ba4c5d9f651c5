-- ===== src/Prelude/Bytes.antt =====
-- Facts on bytes that are found by evaluation.
use Prim.Native.Nat.{ℕ, zero, suc, ◌<◌}
use mathlib.Core.Path.{◌≡◌}
use mathlib.Core.Bool.{Bool, true, ◌&&◌}
use native.Mathlib.Omega.{arith}

-- A test of every number below a bound.
unfoldable pub bytes_pass : (test : ℕ → Bool) (upto : ℕ) → Bool
bytes_pass test zero = true
bytes_pass test (suc k) = bytes_pass test k && test k

pub bytes_pass_at :
    (test : ℕ → Bool) {v : ℕ} (upto : ℕ) → v < upto → bytes_pass test upto ≡ true → test v ≡ true
unfolding bytes_pass
bytes_pass_at test zero lt all = absurd (omega arith)
bytes_pass_at test {v} (suc k) lt all =
    let earlier : v < k → bytes_pass test k ≡ true → test v ≡ true = bytes_pass_at test k in
    ground arith
