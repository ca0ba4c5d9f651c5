-- ===== src/Keys/Device.antt =====
-- wait_int_dev/sleep_module.c: the ring of key states, the interrupt handler and the read.
use raspberrypimodules.Prelude.{ℕ, ◌+◌, Bool, List, [], ◌∷◌, ◌==◌, ltb, if◌then◌else◌, set, get_or}
use raspberrypimodules.Prelude.Errno.{Ret, Errno}
use raspberrypimodules.Prelude.Int.{ℤ}

abbrev pub max_key_states : ℕ
max_key_states = 256

-- `hello_keys_buf`, `buf_rd` and `buf_wr`.
pub record State : Type 0 where
  pub hello_keys_buf : List ℕ
  pub buf_rd : ℕ
  pub buf_wr : ℕ

-- `i++; if (i >= MAX_KEY_STATES) i = 0`
abbrev pub step : ℕ → ℕ
step i = if ltb (i + 1) max_key_states then i + 1 else 0

-- `'P'` for a value of 1, `'R'` for any other, errors included.
abbrev pub letter : ℤ → ℕ
letter (ℤ.pos n) = if n == 1 then 0x50 else 0x52
letter (ℤ.negsuc n) = 0x52

-- `hello_keys_isr`, with the value that the pin has.
unfoldable pub hello_keys_isr : ℤ → State → State
hello_keys_isr val s = record s {
  hello_keys_buf = set s.hello_keys_buf s.buf_wr (letter val);
  buf_wr = step s.buf_wr;
}

-- A read sleeps on, or returns, with the bytes that the user gets and how far the offset moves.
pub data Outcome : Type 0 where
  sleeps : Outcome
  returns : Ret → List ℕ → ℕ → State → Outcome

-- `my_dev_read`, up to the point where it sleeps on or returns: `signal` if a signal wakes it while
-- there is nothing to read, `copied` if the copy to the user succeeds.
unfoldable pub my_dev_read : (signal copied : Bool) → State → Outcome
my_dev_read signal copied s =
    if s.buf_wr == s.buf_rd
    then (if signal then Outcome.returns (Ret.error Errno.erestartsys) [] 0 s else Outcome.sleeps)
    else (if copied
        then Outcome.returns (Ret.value 2) (get_or s.hello_keys_buf s.buf_rd 0 ∷ 10 ∷ []) 1
            (record s { buf_rd = step s.buf_rd })
        else Outcome.returns (Ret.error Errno.efault) [] 0 s)
