-- ===== src/LedModule/Value.antt =====
-- led_module/led_module.c: the value that is written, and that each read makes longer.
use raspberrypimodules.Prelude.{
  ℕ, zero, suc, ◌+◌, ◌-◌, ◌≤◌, ◌<◌, ◌≡◌, refl, ap, ◌∙◌, inl, inr, Bool, false, List, [], ◌∷◌, ◌++◌,
  Option, none, some, ◌==◌, if◌then◌else◌, length, le→ltb, take, drop, set, memcpy, arith,
  Bool-cases, take-all, append_assoc, length-append,
}
use raspberrypimodules.Prelude.Options.{◌>>=◌}
use raspberrypimodules.Prelude.Errno.{Ret}
use raspberrypimodules.LedModule.Device.{
  Store, LedDev, line_feed, plus_one, strlen, show_value, led_read, led_write, use_value,
  switch_led, starts_with, on, off,
}

-- How many bytes are NUL.
abbrev pub nuls : List ℕ → ℕ
nuls [] = 0
nuls (zero ∷ s) = suc (nuls s)
nuls (suc c ∷ s) = nuls s

nuls-bound : (s : List ℕ) → nuls s ≤ length s
nuls-bound [] = omega arith
nuls-bound (zero ∷ s) = omega (arith, nuls-bound s)
nuls-bound (suc c ∷ s) = omega (arith, nuls-bound s)

-- A string ends before the end of the array, or there is no NUL.
data Ends (s : List ℕ) : Type 0 where
  never : strlen s ≡ none → Ends s
  at : (len : ℕ) → strlen s ≡ some len → nuls s ≡ suc (nuls (set s len line_feed)) → Ends s

ends : (s : List ℕ) → Ends s
ends [] = never refl
ends (zero ∷ s) = at 0 refl refl
ends (suc c ∷ s) = elim (ends s) [
  | never e ↦ never (ap plus_one e)
  | at len e n ↦ at (suc len) (ap plus_one e) n
]

-- Reads from the start of the file, one after the other, of which some fail to copy.
abbrev pub reads : List Bool → LedDev → Option LedDev
reads [] dev = some dev
reads (failed ∷ rest) dev = do r ← led_read failed 0 dev; reads rest r.1

reads-nuls :
    (failures : List Bool) (dev : LedDev)
    → nuls dev.led_value < length failures
    → reads failures dev ≡ none
unfolding led_read show_value
reads-nuls [] dev lt = absurd (omega arith)
reads-nuls (failed ∷ rest) dev lt = elim (ends dev.led_value) [
  | never e ↦ simp e refl
  | at len e n ↦
      simp e
        (reads-nuls rest (record dev { led_value = set dev.led_value len line_feed }) (omega arith))
]

-- Each read from the start replaces the final NUL of the value by a line feed, so that of nine reads in a
-- row, with no write between them, one runs past the eight bytes of the value, whatever they were.
pub led_read-overrun :
    (failures : List Bool) (dev : LedDev)
    → length dev.led_value ≡ 8
    → length failures ≡ 9
    → reads failures dev ≡ none
led_read-overrun failures dev size nine =
    reads-nuls failures dev (omega (arith, nuls-bound dev.led_value))

strlen-append : (s rest : List ℕ) → strlen s ≡ none → strlen (s ++ 0 ∷ rest) ≡ some (length s)
strlen-append [] rest e = refl
strlen-append (zero ∷ s) rest e = cc
strlen-append (suc c ∷ s) rest e = ap plus_one (strlen-append s rest (no_nul (strlen s) e))
  where
    no_nul : (m : Option ℕ) → plus_one m ≡ none → m ≡ none
    no_nul none h = refl
    no_nul (some n) h = cc

set-append : (s rest : List ℕ) (c d : ℕ) → set (s ++ c ∷ rest) (length s) d ≡ s ++ d ∷ rest
set-append [] rest c d = refl
set-append (x ∷ s) rest c d = ap (λ l. x ∷ l) (set-append s rest c d)

take-line : (s rest : List ℕ) (c : ℕ) → take (length s + 1) (s ++ c ∷ rest) ≡ s ++ c ∷ []
take-line [] rest c = refl
take-line (x ∷ s) rest c =
    let same : suc (length s) + 1 ≡ suc (length s + 1) = omega arith in
    ap (λ n. take n (x ∷ (s ++ c ∷ rest))) same ∙ ap (λ l. x ∷ l) (take-line s rest c)

switch_led-value : (count : ℕ) (dev : LedDev) → (switch_led count dev).1.led_value ≡ dev.led_value
unfolding switch_led
switch_led-value count dev = elim (Bool-cases (starts_with dev.led_value on)) [
  | inl e ↦ rw e refl
  | inr e ↦ elim (Bool-cases (starts_with dev.led_value off)) [
    | inl f ↦ rw (e, f) refl
    | inr f ↦ rw (e, f) refl
  ]
]

-- The array behind a write of a line.
written :
    (s : List ℕ) (v : List ℕ)
    → let line : List ℕ = s ++ line_feed ∷ [] in
      set (memcpy v line (length line)) (length line - 1) 0 ≡ s ++ 0 ∷ drop (length line) v
written s v =
    let line : List ℕ = s ++ line_feed ∷ [] in
    let last : length line - 1 ≡ length s = omega (arith, length-append s (line_feed ∷ [])) in
    ap (λ n. set (memcpy v line (length line)) n 0) last
    ∙ ap (λ l. set (l ++ drop (length line) v) (length s) 0) (take-all line)
    ∙ ap (λ l. set l (length s) 0) (append_assoc s (line_feed ∷ []) (drop (length line) v))
    ∙ set-append s (drop (length line) v) line_feed 0

-- What a comparison makes of the pins.
abbrev pub switched : List ℕ → LedDev → List Store
switched s dev =
    if starts_with s on
    then Store.gpset0 dev.led_mask ∷ dev.stores
    else (if starts_with s off then Store.gpclr0 dev.led_mask ∷ dev.stores else dev.stores)

switch_led-stores :
    (count : ℕ) (dev : LedDev) → (switch_led count dev).1.stores ≡ switched dev.led_value dev
unfolding switch_led
switch_led-stores count dev = elim (Bool-cases (starts_with dev.led_value on)) [
  | inl e ↦ rw e refl
  | inr e ↦ elim (Bool-cases (starts_with dev.led_value off)) [
    | inl f ↦ rw (e, f) refl
    | inr f ↦ rw (e, f) refl
  ]
]

starts_on : (s rest : List ℕ) → starts_with (s ++ 0 ∷ rest) on ≡ starts_with s on
starts_on [] rest = refl
starts_on (a ∷ []) rest = refl
starts_on (a ∷ b ∷ s) rest = refl

starts_off : (s rest : List ℕ) → starts_with (s ++ 0 ∷ rest) off ≡ starts_with s off
starts_off [] rest = refl
starts_off (a ∷ []) rest = refl
starts_off (a ∷ b ∷ []) rest = refl
starts_off (a ∷ b ∷ c ∷ s) rest = refl

led_write-switch_led :
    (s : List ℕ) (dev : LedDev)
    → length s < 8
    → let line : List ℕ = s ++ line_feed ∷ [] in
      led_write false line dev
      ≡ some (
          switch_led
            (length line)
            (record dev { led_value = s ++ 0 ∷ drop (length line) dev.led_value }))
unfolding led_write use_value
led_write-switch_led s dev short =
    let line : List ℕ = s ++ line_feed ∷ [] in
    let size : length line ≡ length s + 1 = length-append s (line_feed ∷ []) ∙ omega arith in
    let some_bytes : (length line == 0) ≡ false = ground arith in
    rw (le→ltb 8 (length line) (omega arith), some_bytes)
      (ap (λ v. some (switch_led (length line) (record dev { led_value = v })))
        (written s dev.led_value))

led_read-line :
    (s rest : List ℕ) (dev : LedDev)
    → strlen s ≡ none
    → dev.led_value ≡ s ++ 0 ∷ rest
    → led_read false 0 dev
      ≡ some (
        record { ret = Ret.value 8; copied = s ++ line_feed ∷ []; pos = 1 },
        record dev { led_value = s ++ line_feed ∷ rest },
      )
unfolding led_read show_value
led_read-line s rest dev text e =
    ap (λ m. show_value false m dev) (ap strlen e ∙ strlen-append s rest text)
    ∙ ap
        (λ v. some (
          record { ret = Ret.value 8; copied = take (length s + 1) v; pos = 1 },
          record dev { led_value = v },
        ))
        (ap (λ l. set l (length s) line_feed) e ∙ set-append s rest 0 line_feed)
    ∙ ap
        (λ l. some (
          record { ret = Ret.value 8; copied = l; pos = 1 },
          record dev { led_value = s ++ line_feed ∷ rest },
        ))
        (take-line s rest line_feed)

-- A line of at most eight bytes with its line feed and no NUL, written to a device with no failure of
-- the copy, is what the next read from the start copies to the user, though the read returns 8 whatever
-- its length; a line that is not accepted is kept and read as well. The LED's pin is set for a line that
-- starts with "on", cleared for one that starts with "off", and left alone for any other.
pub led_write-led_read :
    (s : List ℕ) (dev : LedDev)
    → strlen s ≡ none
    → length s < 8
    → let line : List ℕ = s ++ line_feed ∷ [] in
      (r : Ret) × (dev1 : LedDev) × (dev2 : LedDev) × (led_write false line dev ≡ some (r, dev1))
      × (led_read false 0 dev1 ≡ some (record { ret = Ret.value 8; copied = line; pos = 1 }, dev2))
      × (dev1.stores ≡ switched s dev)
led_write-led_read s dev text short =
    let line : List ℕ = s ++ line_feed ∷ [] in
    let rest : List ℕ = drop (length line) dev.led_value in
    let held : LedDev = record dev { led_value = s ++ 0 ∷ rest } in
    let dev1 : LedDev = (switch_led (length line) held).1 in
    (
      (switch_led (length line) held).0,
      dev1,
      record dev1 { led_value = s ++ line_feed ∷ rest },
      led_write-switch_led s dev short,
      led_read-line s rest dev1 text (switch_led-value (length line) held),
      switch_led-stores (length line) held
          ∙ ap
              (λ b.
                if b
                then Store.gpset0 dev.led_mask ∷ dev.stores
                else (if starts_with (s ++ 0 ∷ rest) off
                    then Store.gpclr0 dev.led_mask ∷ dev.stores
                    else dev.stores))
              (starts_on s rest)
          ∙ ap
              (λ b.
                if starts_with s on
                then Store.gpset0 dev.led_mask ∷ dev.stores
                else (if b then Store.gpclr0 dev.led_mask ∷ dev.stores else dev.stores))
              (starts_off s rest),
    )
