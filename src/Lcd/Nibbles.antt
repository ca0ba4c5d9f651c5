-- ===== src/Lcd/Nibbles.antt =====
-- i2c_class/i2c_class.c: which LED a nibble of the command stands for.
use raspberrypimodules.Prelude.{
  ℕ, ◌+◌, ◌*◌, ◌/◌, ◌%◌, ◌≤◌, ◌<◌, ◌≡◌, ◌≢◌, refl, subst, Bool, true, ◌&&◌, arith, ◌==◌,
}
use raspberrypimodules.Prelude.Bytes.{bytes_pass, bytes_pass_at}
use raspberrypimodules.Lcd.Device.{Command, Name, put_upper, put_lower, set_nibble}

-- The brightness that a command has for an LED: the upper nibble of the bytes for red, blue and main,
-- the lower one for green and sub; the lower nibble of the first byte has no LED.
unfoldable pub shown : Name → Command → ℕ
shown Name.red c = c.byte0 / 16
shown Name.blue c = c.byte1 / 16
shown Name.green c = c.byte1 % 16
shown Name.main c = c.byte2 / 16
shown Name.sub c = c.byte2 % 16
shown Name.other c = c.byte0 % 16

-- The three bytes are bytes.
pub record Bytes (c : Command) : Type 0 where
  pub byte0 : c.byte0 < 256
  pub byte1 : c.byte1 < 256
  pub byte2 : c.byte2 < 256

-- A test of every byte and nibble, by evaluation.
pub all_nibbles : (test : ℕ → ℕ → Bool) → Bool
all_nibbles test = bytes_pass (λ k. test (k / 16) (k % 16)) 4096

all_nibbles_at :
    (test : ℕ → ℕ → Bool) {v b : ℕ} → v < 256 → b ≤ 15 → all_nibbles test ≡ true → test v b ≡ true
unfolding all_nibbles
all_nibbles_at test {v} {b} lv lb all =
    let byte : (v * 16 + b) / 16 ≡ v = omega arith in
    let nibble : (v * 16 + b) % 16 ≡ b = omega arith in
    subst (λ x. test x b ≡ true) byte
      (subst (λ y. test ((v * 16 + b) / 16) y ≡ true) nibble
        (bytes_pass_at (λ k. test (k / 16) (k % 16)) 4096 (omega arith) all))

-- A byte by its nibbles.
halves : (byte upper lower : ℕ) → Bool
halves byte upper lower = (byte / 16 == upper) && (byte % 16 == lower)

halves_at :
    (byte upper lower : ℕ)
    → halves byte upper lower ≡ true
    → (byte / 16 ≡ upper) × (byte % 16 ≡ lower)
unfolding halves
halves_at byte upper lower h = (ground arith, ground arith)

upper_passes : all_nibbles (λ v b. halves (put_upper 16 b v) b (v % 16)) ≡ true
unfolding all_nibbles bytes_pass halves
upper_passes = refl

lower_passes : all_nibbles (λ v b. halves (put_lower 1 b v) (v / 16) b) ≡ true
unfolding all_nibbles bytes_pass halves
lower_passes = refl

main_passes : all_nibbles (λ v b. halves (put_lower 16 b v) (v / 16) 0) ≡ true
unfolding all_nibbles bytes_pass halves
main_passes = refl

module _ {v b : ℕ} (lv : v < 256) (lb : b ≤ 15) where
  put_upper_halves : (put_upper 16 b v / 16 ≡ b) × (put_upper 16 b v % 16 ≡ v % 16)
  put_upper_halves = halves_at _ _ _ (all_nibbles_at _ lv lb upper_passes)

  put_lower_halves : (put_lower 1 b v / 16 ≡ v / 16) × (put_lower 1 b v % 16 ≡ b)
  put_lower_halves = halves_at _ _ _ (all_nibbles_at _ lv lb lower_passes)

  pub put_main_halves : (put_lower 16 b v / 16 ≡ v / 16) × (put_lower 16 b v % 16 ≡ 0)
  put_main_halves = halves_at _ _ _ (all_nibbles_at _ lv lb main_passes)

-- The LEDs that `led_control` can show.
abbrev pub Works : Name → Type 0
Works x = (x ≢ Name.main) × (x ≢ Name.other)

-- One LED has its brightness and every other nibble is as it was.
pub record Shown (x : Name) (b : ℕ) (before after : Command) : Type 0 where
  pub bytes : Bytes after
  pub own : shown x after ≡ b
  pub others : (y : Name) → y ≢ x → shown y after ≡ shown y before

pub set_nibble-Shown :
    (x : Name) {b : ℕ} (c : Command) → Works x → Bytes c → b ≤ 15 → Shown x b c (set_nibble x b c)
unfolding set_nibble shown
set_nibble-Shown Name.red c w i lb =
    let (up, low) = put_upper_halves i.byte0 lb in
    record {
      bytes = record { byte0 = omega arith; byte1 = i.byte1; byte2 = i.byte2 };
      own = up;
      others = elim [
        | Name.red ↦ λ n. absurd (n refl)
        | Name.blue ↦ λ n. refl
        | Name.green ↦ λ n. refl
        | Name.main ↦ λ n. refl
        | Name.sub ↦ λ n. refl
        | Name.other ↦ λ n. low
      ];
    }
set_nibble-Shown Name.blue c w i lb =
    let (up, low) = put_upper_halves i.byte1 lb in
    record {
      bytes = record { byte0 = i.byte0; byte1 = omega arith; byte2 = i.byte2 };
      own = up;
      others = elim [
        | Name.red ↦ λ n. refl
        | Name.blue ↦ λ n. absurd (n refl)
        | Name.green ↦ λ n. low
        | Name.main ↦ λ n. refl
        | Name.sub ↦ λ n. refl
        | Name.other ↦ λ n. refl
      ];
    }
set_nibble-Shown Name.green c w i lb =
    let (up, low) = put_lower_halves i.byte1 lb in
    record {
      bytes = record { byte0 = i.byte0; byte1 = omega arith; byte2 = i.byte2 };
      own = low;
      others = elim [
        | Name.red ↦ λ n. refl
        | Name.blue ↦ λ n. up
        | Name.green ↦ λ n. absurd (n refl)
        | Name.main ↦ λ n. refl
        | Name.sub ↦ λ n. refl
        | Name.other ↦ λ n. refl
      ];
    }
set_nibble-Shown Name.sub c w i lb =
    let (up, low) = put_lower_halves i.byte2 lb in
    record {
      bytes = record { byte0 = i.byte0; byte1 = i.byte1; byte2 = omega arith };
      own = low;
      others = elim [
        | Name.red ↦ λ n. refl
        | Name.blue ↦ λ n. refl
        | Name.green ↦ λ n. refl
        | Name.main ↦ λ n. up
        | Name.sub ↦ λ n. absurd (n refl)
        | Name.other ↦ λ n. refl
      ];
    }
set_nibble-Shown Name.main c w i lb = absurd (w.0 refl)
set_nibble-Shown Name.other c w i lb = absurd (w.1 refl)
