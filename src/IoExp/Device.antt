-- ===== src/IoExp/Device.antt =====
-- i2c_io/i2c_io_expander.c: the read, the write and the probe.
use raspberrypimodules.Prelude.{
  ℕ, ◌+◌, ◌/◌, ◌%◌, ◌⊎◌, inl, inr, Bool, List, [], ◌∷◌, Option, none, some, ◌==◌, ltb,
  if◌then◌else◌, not, length,
}
use raspberrypimodules.Prelude.Strings.{command}
use raspberrypimodules.Prelude.Errno.{Ret, Errno}

-- The digits that `%x` prints, and those that `%d` prints of a number below ten.
abbrev pub hex_digit : ℕ → ℕ
hex_digit n = if ltb n 10 then 48 + n else 87 + n

-- `sprintf(buf, "%02x", val)` for a byte, and the line feed over its NUL.
abbrev pub hex_line : ℕ → List ℕ
hex_line val = hex_digit (val / 16) ∷ hex_digit (val % 16) ∷ 10 ∷ []

-- The result of a read, with the bytes that the user gets and the position in the file.
pub record Answer : Type 0 where
  pub ret : Ret
  pub copied : List ℕ
  pub pos : ℕ

-- `ioexp_read_file` behind `i2c_smbus_read_byte`.
unfoldable pub show_byte : (failed : Bool) → (pos : ℕ) → ℕ → Answer
show_byte failed pos val =
    if not (pos == 0)
    then record { ret = Ret.value 0; copied = []; pos = pos }
    else (if failed
        then record { ret = Ret.error Errno.efault; copied = []; pos = pos }
        else record { ret = Ret.value 3; copied = hex_line val; pos = pos + 1 })

-- `ioexp_read_file`: what the bus answers is an error or a byte; `copy_to_user` may fail.
unfoldable pub ioexp_read_file : Errno ⊎ ℕ → (failed : Bool) → (pos : ℕ) → Answer
ioexp_read_file (inl e) failed pos = record { ret = Ret.error e; copied = []; pos = pos }
ioexp_read_file (inr val) failed pos = show_byte failed pos val

-- What the write sends to the chip, if it does: `i2c_smbus_write_byte` takes a byte. The bus may answer with an
-- error.
unfoldable pub send_byte : Option Errno → (count : ℕ) → Errno ⊎ ℕ → Ret × Option ℕ
send_byte bus count (inl e) = (Ret.error e, none)
send_byte none count (inr val) = (Ret.value count, some (val % 256))
send_byte (some e) count (inr val) = (Ret.error e, some (val % 256))

-- `ioexp_write_file`: `kstrtoul` reads the C string in the buffer, whose last byte has become NUL. A write of
-- more than the four bytes of the buffer, or of none, stores outside of it.
unfoldable pub ioexp_write_file :
    (kstrtoul : List ℕ → Errno ⊎ ℕ)
    → (failed : Bool) → Option Errno
    → (buf : List ℕ) → Option (Ret × Option ℕ)
ioexp_write_file kstrtoul failed bus buf =
    let count = length buf in
    if ltb 4 count
    then none
    else (if failed
        then some (Ret.error Errno.efault, none)
        else (if count == 0 then none else some (send_byte bus count (kstrtoul (command buf)))))

-- The names of the devices so far, the latest first, and the counter of the probe.
pub record Ioexp : Type 0 where
  pub counter : ℕ
  pub names : List (List ℕ)

-- "ioexp" and the digits of `%02d` for a number below a hundred.
abbrev pub device_name : ℕ → List ℕ
device_name n = 105 ∷ 111 ∷ 101 ∷ 120 ∷ 112 ∷ (48 + n / 10) ∷ (48 + n % 10) ∷ []

-- `ioexp_probe`: `misc_register` is called for the name, and its result is not looked at. From the number 100 on
-- the name and its NUL need more than the eight bytes.
unfoldable pub ioexp_probe : (allocated : Bool) → Ioexp → Option (Ret × Ioexp)
ioexp_probe allocated s =
    if not allocated
    then some (Ret.error Errno.enomem, s)
    else (if ltb s.counter 100
        then some (
          Ret.value 0,
          record { counter = s.counter + 1; names = device_name s.counter ∷ s.names },
        )
        else none)
