-- ===== src/IoExp/Tests.antt =====
-- The theorems on i2c_io/i2c_io_expander.c at "9" and its line feed.
use raspberrypimodules.Prelude.{ℕ, ◌⊎◌, inr, List, [], ◌∷◌}
use raspberrypimodules.Prelude.Errno.{Errno}

abbrev nine : List ℕ
nine = 57 ∷ []

abbrev parse : List ℕ → Errno ⊎ ℕ
parse text = inr 9
