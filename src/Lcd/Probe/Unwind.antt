-- ===== src/Lcd/Probe/Unwind.antt =====
-- i2c_class/i2c_class.c: what the probe of the LTC3206 gives back.
use raspberrypimodules.Prelude.{
  ◌≡◌, refl, ap, subst, sym, Bool-cases, inl, inr, Bool, true, false, List, [], ◌∷◌, Option, none,
  some, ◌&&◌, arith,
}
use raspberrypimodules.Prelude.Options.{◌>>=◌}
use raspberrypimodules.Prelude.Errno.{Ret, Errno}
use raspberrypimodules.Lcd.Device.{Name}
use raspberrypimodules.Lcd.Probe.{
  Part, Held, Child, Board, Outcomes, Round, err, after_register, register_led, add_led,
  probe_child, next, probe_children, create_group, get_gpio, ltc3206_probe,
}

-- The labels that the driver knows.
abbrev pub known : Option Name → Bool
known none = false
known (some Name.other) = false
known (some x) = true

-- Every child has its memory and a label that the driver knows.
abbrev pub clean : List Child → Bool
clean [] = true
clean (c ∷ rest) = c.allocated && known c.label && clean rest

-- The group is held after a success only, and nothing else is held more than before.
abbrev pub Ended : Held → Option (Ret × Board) → Type 0
Ended h none = ⊥
Ended h (some (Ret.value n, b)) = (n ≡ 0) × (b.held ≡ Part.group ∷ h)
Ended h (some (Ret.error e, b)) = b.held ≡ h

-- What a round of the loop leaves.
abbrev Rounded : Held → Round → Type 0
Rounded h none = ⊥
Rounded h (some (inl b)) = (b.ret ≡ none) × (b.held ≡ Part.group ∷ h)
Rounded h (some (inr r)) = Ended h (some r)

after_register-Rounded :
    (r : Option Errno) (h : Held) (b : Board)
    → b.ret ≡ r
    → b.held ≡ Part.child ∷ Part.group ∷ h
    → Rounded h (after_register r b)
unfolding after_register err
after_register-Rounded none h b n e = simp e (n, refl)
after_register-Rounded (some x) h b n e = simp e refl

-- A registration whose result is dropped.
dropped-Rounded :
    (x : Name) (r : Option Errno) (h : Held) (b : Board)
    → b.ret ≡ none
    → b.held ≡ Part.child ∷ Part.group ∷ h
    → Rounded h (after_register b.ret (register_led x r b))
dropped-Rounded x none h b n e =
    subst (λ ret. Rounded h (after_register ret (register_led x none b))) (sym n)
      (after_register-Rounded none h (register_led x none b) n e)
dropped-Rounded x (some y) h b n e =
    subst (λ ret. Rounded h (after_register ret b)) (sym n) (after_register-Rounded none h b n e)

add_led-Rounded :
    (label : Option Name) (r : Option Errno) (h : Held) (b : Board)
    → known label ≡ true
    → b.ret ≡ none
    → b.held ≡ Part.child ∷ Part.group ∷ h
    → Rounded h (add_led label r b)
unfolding add_led
add_led-Rounded none r h b k n e = cc
add_led-Rounded (some Name.other) r h b k n e = cc
add_led-Rounded (some Name.main) none h b k n e = after_register-Rounded none h _ refl e
add_led-Rounded (some Name.main) (some x) h b k n e = after_register-Rounded (some x) h _ refl e
add_led-Rounded (some Name.sub) r h b k n e = dropped-Rounded Name.sub r h b n e
add_led-Rounded (some Name.red) r h b k n e = dropped-Rounded Name.red r h b n e
add_led-Rounded (some Name.green) r h b k n e = dropped-Rounded Name.green r h b n e
add_led-Rounded (some Name.blue) r h b k n e = dropped-Rounded Name.blue r h b n e

-- The rest of the loop behind a round.
next-Ended :
    (h : Held) (m : Round) (f : Board → Option (Ret × Board))
    → Rounded h m
    → ((b : Board) → b.ret ≡ none → b.held ≡ Part.group ∷ h → Ended h (f b))
    → Ended h (m >>= λ r. next f r)
next-Ended h none f k g = k
next-Ended h (some (inl b)) f k g = g b k.0 k.1
next-Ended h (some (inr r)) f k g = k

probe_child-Rounded :
    (c : Child) (h : Held) (b : Board)
    → (c.allocated && known c.label) ≡ true
    → b.ret ≡ none
    → b.held ≡ Part.group ∷ h
    → Rounded h (probe_child c b)
unfolding probe_child
probe_child-Rounded c h b k n e =
    let allocated : c.allocated ≡ true = ground arith in
    let label : known c.label ≡ true = ground arith in
    rw allocated (add_led-Rounded c.label c.registered h _ label n (ap (λ l. Part.child ∷ l) e))

probe_children-Ended :
    (children : List Child) (h : Held) (b : Board)
    → clean children ≡ true
    → b.ret ≡ none
    → b.held ≡ Part.group ∷ h
    → Ended h (probe_children children b)
unfolding probe_children
probe_children-Ended [] h b k n e = (refl, e)
probe_children-Ended (c ∷ rest) h b k n e =
    let this : (c.allocated && known c.label) ≡ true = ground arith in
    let others : clean rest ≡ true = ground arith in
    next-Ended h (probe_child c b) (λ b'. probe_children rest b')
      (probe_child-Rounded c h b this n e) λ b'. probe_children-Ended rest h b' others

create_group-Ended :
    (group : Option Errno) (children : List Child) (b : Board)
    → clean children ≡ true
    → b.ret ≡ none
    → Ended b.held (create_group group children b)
unfolding create_group
create_group-Ended none children b k n = probe_children-Ended children b.held _ k n refl
create_group-Ended (some e) children b k n = refl

get_gpio-Ended :
    (o : Outcomes) (gpio : Option Errno) (children : List Child) (b : Board)
    → clean children ≡ true
    → b.ret ≡ none
    → Ended b.held (get_gpio o gpio children b)
unfolding get_gpio
get_gpio-Ended o none children b k n = create_group-Ended o.group children _ k n
get_gpio-Ended o (some e) children b k n = refl

-- If every child node has its memory and a label that the driver knows, then whichever calls fail the
-- probe ends; it returns 0 with the group of files held, or an error with nothing held more than
-- before.
pub ltc3206_probe-held :
    (o : Outcomes) (children : List Child) (h : Held)
    → clean children ≡ true
    → Ended h (ltc3206_probe o children h)
unfolding ltc3206_probe
ltc3206_probe-held o [] h k = refl
ltc3206_probe-held o (c ∷ rest) h k = elim (Bool-cases o.allocated) [
  | inl e ↦ simp e (get_gpio-Ended o o.gpio (c ∷ rest) _ k refl)
  | inr e ↦ simp e refl
]
