-- ===== src/CharDevices/ClassModule.antt =====
-- class_module/char_module.c: a character device with a class and a device of it.
use raspberrypimodules.Prelude.{◌≡◌, refl, List, ◌∷◌, Option, none, some}
use raspberrypimodules.Prelude.Options.{◌>>=◌}
use raspberrypimodules.Prelude.Ledger.{release}
use raspberrypimodules.Prelude.Errno.{Ret, Errno}
use raspberrypimodules.CharDevices.{Part, part_resource, first_error}

-- The errors of the four calls of `hello_init`, if they have one.
pub record Outcomes : Type 0 where
  pub region : Option Errno
  pub add : Option Errno
  pub class : Option Errno
  pub device : Option Errno

unfoldable pub create_device : Option Errno → List Part → Option (Ret × List Part)
create_device none h = some (Ret.value 0, Part.device ∷ h)
create_device (some e) h = do
  h1 ← release Part.hello_class h
  h2 ← release Part.cdev h1
  h3 ← release Part.region h2
  some (Ret.error e, h3)

unfoldable pub create_class : Outcomes → Option Errno → List Part → Option (Ret × List Part)
create_class o none h = create_device o.device (Part.hello_class ∷ h)
create_class o (some e) h = do
  h1 ← release Part.region h
  h2 ← release Part.cdev h1
  some (Ret.error e, h2)

unfoldable pub add_cdev : Outcomes → Option Errno → List Part → Option (Ret × List Part)
add_cdev o none h = create_class o o.class (Part.cdev ∷ h)
add_cdev o (some e) h = do h1 ← release Part.region h; some (Ret.error e, h1)

unfoldable pub alloc_region : Outcomes → Option Errno → List Part → Option (Ret × List Part)
alloc_region o none h = add_cdev o o.add (Part.region ∷ h)
alloc_region o (some e) h = some (Ret.error e, h)

-- `hello_init`; none gives back what is not held.
abbrev pub hello_init : Outcomes → List Part → Option (Ret × List Part)
hello_init o h = alloc_region o o.region h

unfoldable pub hello_exit : List Part → Option (List Part)
hello_exit h = do
  h1 ← release Part.device h
  h2 ← release Part.hello_class h1
  h3 ← release Part.cdev h2
  release Part.region h3

-- The error that `hello_init` is to return.
abbrev pub error_of : Outcomes → Option Errno
error_of o = first_error o.region (first_error o.add (first_error o.class o.device))

-- What a load gives: where `hello_init` is to return an error, it does and holds nothing more; else it returns 0,
-- and `hello_exit` gives back all that it holds.
abbrev pub Loaded : Outcomes → List Part → Option Errno → Type 0
Loaded o h none =
    (held : List Part) × (hello_init o h ≡ some (Ret.value 0, held)) × (hello_exit held ≡ some h)
Loaded o h (some e) = hello_init o h ≡ some (Ret.error e, h)

loaded :
    (r a c d : Option Errno) (h : List Part)
    → let o : Outcomes = record { region = r; add = a; class = c; device = d } in
      Loaded o h (error_of o)
unfolding alloc_region add_cdev create_class create_device hello_exit
loaded (some e) a c d h = refl
loaded none (some e) c d h = refl
loaded none none (some e) d h = refl
loaded none none none (some e) h = refl
loaded none none none none h =
    (Part.device ∷ Part.hello_class ∷ Part.cdev ∷ Part.region ∷ h, refl, refl)

-- For every outcome of its four calls, `hello_init` never gives back what it does not hold. Where one fails, it
-- returns the error of the first that does and holds nothing more; else it returns 0, and `hello_exit` gives back
-- all that it holds.
hello_init-Loaded : (o : Outcomes) (h : List Part) → Loaded o h (error_of o)
hello_init-Loaded o h = loaded o.region o.add o.class o.device h
