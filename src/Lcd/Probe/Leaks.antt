-- ===== src/Lcd/Probe/Leaks.antt =====
-- i2c_class/i2c_class.c: the errors that the probe of the LTC3206 passes over, and what it leaks.
use raspberrypimodules.Prelude.{
  ℕ, suc, ◌+◌, ◌≡◌, refl, ap, sym, ◌∙◌, inl, inr, Bool, true, false, List, [], ◌∷◌, ◌++◌, Option,
  none, some, length, ◌&&◌, ◌||◌, not, arith, if◌then◌else◌, append-nil, length-append,
}
use raspberrypimodules.Prelude.Options.{◌>>=◌}
use raspberrypimodules.Prelude.Ledger.{release}
use raspberrypimodules.Prelude.Errno.{Ret, Errno}
use raspberrypimodules.Lcd.Device.{Signal, Name}
use raspberrypimodules.Lcd.Probe.{
  Part, part_resource, Held, Child, Board, Outcomes, after_register, register_led, add_led,
  get_child, count_led, probe_child, next, stop, probe_children, create_group, get_gpio,
  ltc3206_probe, first_message,
}

-- A label that the driver knows, but for main.
abbrev pub side : Option Name → Bool
side none = false
side (some Name.main) = false
side (some Name.other) = false
side (some x) = true

-- No child node is main, and each has its memory and a label that the driver knows.
abbrev pub sides : List Child → Bool
sides [] = true
sides (c ∷ rest) = c.allocated && side c.label && sides rest

abbrev add : Option Name → Option Errno → List Name → List Name
add (some x) none leds = x ∷ leds
add label r leds = leds

-- The LEDs whose registration succeeds, in front of others.
abbrev pub registered : List Child → List Name → List Name
registered [] leds = leds
registered (c ∷ rest) leds = registered rest (add c.label c.registered leds)

-- The board with its count and its LEDs.
record Counted (h : Held) (n : ℕ) (names : List Name) (b : Board) : Type 0 where
  ret : b.ret ≡ none
  held : b.held ≡ Part.group ∷ h
  num_leds : b.num_leds ≡ n
  leds : b.leds ≡ names

after_register-Counted :
    (h : Held) (b : Board)
    → b.ret ≡ none
    → b.held ≡ Part.child ∷ Part.group ∷ h
    → (b' : Board) × (after_register b.ret b ≡ some (inl b')) × Counted h (suc b.num_leds) b.leds b'
unfolding after_register
after_register-Counted h b n e =
    let b' : Board = record b { held = Part.group ∷ h; num_leds = suc b.num_leds } in
    (
      b',
      ap (λ r. after_register r b) n ∙ ap (λ l. release Part.child l >>= count_led b) e,
      record { ret = n; held = refl; num_leds = refl; leds = refl },
    )

after_drop :
    (x : Name) (r : Option Errno) (h : Held) (b : Board)
    → b.ret ≡ none
    → b.held ≡ Part.child ∷ Part.group ∷ h
    → (b' : Board) × (after_register b.ret (register_led x r b) ≡ some (inl b'))
      × Counted h (suc b.num_leds) (add (some x) r b.leds) b'
after_drop x none h b n e = after_register-Counted h (register_led x none b) n e
after_drop x (some y) h b n e = after_register-Counted h b n e

-- A round for a child that is no main, with the result of the registration dropped.
add_led-side :
    (label : Option Name) (r : Option Errno) (h : Held) (b : Board)
    → side label ≡ true
    → b.ret ≡ none
    → b.held ≡ Part.child ∷ Part.group ∷ h
    → (b' : Board) × (add_led label r b ≡ some (inl b'))
      × Counted h (suc b.num_leds) (add label r b.leds) b'
unfolding add_led
add_led-side none r h b k n e = cc
add_led-side (some Name.main) r h b k n e = cc
add_led-side (some Name.other) r h b k n e = cc
add_led-side (some Name.sub) r h b k n e = after_drop Name.sub r h b n e
add_led-side (some Name.red) r h b k n e = after_drop Name.red r h b n e
add_led-side (some Name.green) r h b k n e = after_drop Name.green r h b n e
add_led-side (some Name.blue) r h b k n e = after_drop Name.blue r h b n e

probe_child-side :
    (c : Child) (h : Held) (b : Board)
    → (c.allocated && side c.label) ≡ true
    → b.ret ≡ none
    → b.held ≡ Part.group ∷ h
    → (b' : Board) × (probe_child c b ≡ some (inl b'))
      × Counted h (suc b.num_leds) (add c.label c.registered b.leds) b'
unfolding probe_child
probe_child-side c h b k n e =
    let allocated : c.allocated ≡ true = ground arith in
    let label : side c.label ≡ true = ground arith in
    simp allocated
      (add_led-side c.label c.registered h (get_child b) label n (ap (λ l. Part.child ∷ l) e))

-- The rounds for children that are no main, in front of others.
probe_children-sides :
    (children rest : List Child) (h : Held) (b : Board)
    → sides children ≡ true
    → b.ret ≡ none
    → b.held ≡ Part.group ∷ h
    → (b' : Board) × (probe_children (children ++ rest) b ≡ probe_children rest b')
      × Counted h (length children + b.num_leds) (registered children b.leds) b'
unfolding probe_children
probe_children-sides [] rest h b k n e =
    (b, refl, record { ret = n; held = e; num_leds = omega arith; leds = refl })
probe_children-sides (c ∷ children) rest h b k n e =
    let this : (c.allocated && side c.label) ≡ true = ground arith in
    let others : sides children ≡ true = ground arith in
    let (b1, round, i) = probe_child-side c h b this n e in
    let (b2, loop, j) = probe_children-sides children rest h b1 others i.ret i.held in
    (
      b2,
      ap (λ m. m >>= λ r. next (λ x. probe_children (children ++ rest) x) r) round ∙ loop,
      record {
        ret = j.ret;
        held = j.held;
        num_leds = omega (arith, j.num_leds, i.num_leds);
        leds = j.leds ∙ ap (registered children) i.leds;
      },
    )

-- Every call of the probe in front of its loop succeeds.
abbrev pub all_well : Outcomes
all_well = record { allocated = true; gpio = none; group = none }

abbrev at_loop : Held → Board
at_loop h = record {
  ret = none;
  held = Part.group ∷ h;
  leds = [];
  num_leds = 0;
  signals = Signal.display_cs true ∷ first_message ∷ [];
}

ltc3206_probe-loop :
    (children : List Child) (c : Child) (rest : List Child) (h : Held)
    → ltc3206_probe all_well (children ++ c ∷ rest) h
      ≡ probe_children (children ++ c ∷ rest) (at_loop h)
unfolding ltc3206_probe get_gpio create_group
ltc3206_probe-loop [] c rest h = refl
ltc3206_probe-loop (d ∷ children) c rest h = refl

-- If no child node is main, and each has its memory and a label that the driver knows, then the probe
-- returns 0 and counts every child, but has registered only those LEDs whose registration did not fail,
-- possibly none.
ltc3206_probe-overlooked :
    (children : List Child) (c : Child) (h : Held)
    → sides (children ++ c ∷ []) ≡ true
    → (b : Board) × (ltc3206_probe all_well (children ++ c ∷ []) h ≡ some (Ret.value 0, b))
      × (b.num_leds ≡ suc (length children))
      × (b.leds ≡ registered (children ++ c ∷ []) [])
unfolding probe_children
ltc3206_probe-overlooked children c h k =
    let all : List Child = children ++ c ∷ [] in
    let (b, loop, i) = probe_children-sides all [] h (at_loop h) k refl refl in
    (
      b,
      ltc3206_probe-loop children c [] h
          ∙ ap (λ l. probe_children l (at_loop h)) (sym (append-nil all))
          ∙ loop,
      omega (arith, i.num_leds, length-append children (c ∷ [])),
      i.leds,
    )

abbrev is_other : Option Name → Bool
is_other (some Name.other) = true
is_other label = false

-- A child without memory, or with a label that the driver does not know.
abbrev unusable : Child → Bool
unusable c = not c.allocated || is_other c.label

probe_child-unusable :
    (c : Child) (b : Board)
    → unusable c ≡ true
    → (e : Errno) × (probe_child c b ≡ some (inr (Ret.error e, get_child b)))
unfolding probe_child add_led
probe_child-unusable c b k = table c.allocated c.label k
  where
    table :
        (a : Bool) (label : Option Name)
        → (not a || is_other label) ≡ true
        → (e : Errno) × ((if a
              then add_led label c.registered (get_child b)
              else stop (Ret.error Errno.enomem, get_child b))
            ≡ some (inr (Ret.error e, get_child b)))
    table false label j = (Errno.enomem, refl)
    table true none j = cc
    table true (some Name.other) j = (Errno.einval, refl)
    table true (some Name.main) j = cc
    table true (some Name.sub) j = cc
    table true (some Name.red) j = cc
    table true (some Name.green) j = cc
    table true (some Name.blue) j = cc

-- A child without memory or with a label that the driver does not know, behind others that are no main
-- and usable, makes the probe return an error with the group of files and the reference on the child
-- still held.
ltc3206_probe-leaks :
    (children : List Child) (c : Child) (rest : List Child) (h : Held)
    → sides children ≡ true
    → unusable c ≡ true
    → (e : Errno) × (b : Board) × (ltc3206_probe all_well (children ++ c ∷ rest) h
        ≡ some (Ret.error e, b))
      × (b.held ≡ Part.child ∷ Part.group ∷ h)
unfolding probe_children
ltc3206_probe-leaks children c rest h k u =
    let (b, loop, i) = probe_children-sides children (c ∷ rest) h (at_loop h) k refl refl in
    let (e, round) = probe_child-unusable c b u in
    (
      e,
      get_child b,
      ltc3206_probe-loop children c rest h
          ∙ loop
          ∙ ap (λ m. m >>= λ r. next (λ x. probe_children rest x) r) round,
      ap (λ l. Part.child ∷ l) i.held,
    )
