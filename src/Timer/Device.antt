-- ===== src/Timer/Device.antt =====
-- timer_module/timer_module.c: the pin's registers, the timer's handler, the period, probe and remove.
use raspberrypimodules.Prelude.{
  ℕ, ◌+◌, ◌-◌, ◌*◌, ◌/◌, ◌%◌, ◌^◌, Bool, true, false, not, List, [], ◌∷◌, Option, none, some, ltb,
  if◌then◌else◌, get_or, set,
}
use raspberrypimodules.Prelude.Int.{ℤ, pos, negsuc, below}
use raspberrypimodules.Prelude.Errno.{Ret, Errno}

-- A store to `GPSET` or `GPCLR`: the index of the register and the value.
pub data Output : Type 0 where
  gpset gpclr : ℕ → ℕ → Output

-- The static variables: the registers `GPSEL`, the stores to the outputs (the latest first), `on` and
-- `blink_period`; the milliseconds after which the timer expires, if it is pending; and whether the
-- attribute and the device are there.
pub record Driver : Type 0 where
  pub gpsel : List ℕ
  pub outputs : List Output
  pub on : Bool
  pub blink_period : ℤ
  pub timer : Option ℤ
  pub attribute : Bool
  pub misc : Bool

abbrev pub led_gpio_pin : ℕ
led_gpio_pin = 27

-- `(old & ~mask) | ((fn_code << bit) & mask)` with `mask = 0b111 << bit`, for a `bit` below 30: the bits
-- below the three, the three from `fn_code`, and the bits above.
unfoldable pub put_field : (bit : ℕ) → (fn_code : ℕ) → (old : ℕ) → ℕ
put_field bit fn_code old =
    old % 2 ^ bit + (fn_code % 8) * 2 ^ bit + (old / 2 ^ (bit + 3)) * 2 ^ (bit + 3)

-- For a `gpio` that has one of the six registers.
unfoldable pub set_gpio_fn : (gpio : ℕ) → (fn_code : ℕ) → Driver → Driver
set_gpio_fn gpio fn_code d =
    let reg_index = gpio / 10 in
    record d {
      gpsel =
          set d.gpsel reg_index (put_field ((gpio % 10) * 3) fn_code (get_or d.gpsel reg_index 0));
    }

abbrev pub output_store : ℕ → Bool → Output
output_store gpio true = Output.gpset (gpio / 32) (2 ^ (gpio % 32))
output_store gpio false = Output.gpclr (gpio / 32) (2 ^ (gpio % 32))

unfoldable pub set_gpio_output : (gpio : ℕ) → (output : Bool) → Driver → Driver
set_gpio_output gpio output d = record d { outputs = output_store gpio output ∷ d.outputs }

-- `mod_timer` to now and `blink_period` milliseconds.
abbrev pub mod_timer : Driver → Driver
mod_timer d = record d { timer = some d.blink_period }

unfoldable pub blink_handler : Driver → Driver
blink_handler d = mod_timer (set_gpio_output led_gpio_pin (not d.on) (record d { on = not d.on }))

-- A `long` that is stored in an `int`: its low 32 bits, as a signed number.
abbrev pub to_int : ℤ → ℤ
to_int (pos n) =
    if ltb (n % 2 ^ 32) (2 ^ 31) then pos (n % 2 ^ 32) else negsuc (2 ^ 32 - 1 - n % 2 ^ 32)
to_int (negsuc n) =
    if ltb (n % 2 ^ 32) (2 ^ 31) then negsuc (n % 2 ^ 32) else pos (2 ^ 32 - 1 - n % 2 ^ 32)

-- `set_period` behind `kstrtol`.
unfoldable pub store_period : Option ℤ → (count : ℕ) → Driver → Ret × Driver
store_period none count d = (Ret.error Errno.einval, d)
store_period (some period_val) count d =
    if below period_val 10
    then (Ret.error Errno.einval, d)
    else (Ret.value count, record d { blink_period = to_int period_val })

-- The timer is not pending any more when its handler runs.
unfoldable pub expire : Option ℤ → Driver → Driver
expire none d = d
expire (some delay) d = blink_handler (record d { timer = none })

-- What happens while the driver is bound: the timer expires, or the attribute is written, with what
-- `kstrtol` makes of the text.
pub data Event : Type 0 where
  expires : Event
  period : (parsed : Option ℤ) → (count : ℕ) → Event

unfoldable pub handle : Event → Driver → Driver
unfolding expire
handle Event.expires d = expire d.timer d
handle (Event.period parsed count) d = (store_period parsed count d).1

unfoldable pub run : List Event → Driver → Driver
run [] d = d
run (e ∷ es) d = run es (handle e d)

-- `led_probe` behind `device_create_file`, with the result of `misc_register`.
unfoldable pub register_misc : Option Errno → Driver → Ret × Driver
register_misc none d = (Ret.value 0, record d { misc = true })
register_misc (some e) d = (Ret.error e, d)

unfoldable pub create_file : Option Errno → Option Errno → Driver → Ret × Driver
create_file (some e) registered d = (Ret.error e, d)
create_file none registered d = register_misc registered (record d { attribute = true })

-- `led_probe`, with the results of `device_create_file` and `misc_register`.
unfoldable pub led_probe : (created registered : Option Errno) → Driver → Ret × Driver
led_probe created registered d =
    create_file created registered (mod_timer (set_gpio_fn led_gpio_pin 1 d))

unfoldable pub led_remove : Driver → Ret × Driver
led_remove d =
    let e = set_gpio_fn led_gpio_pin 0 (record d { misc = false; attribute = false }) in
    (Ret.value 0, record e { timer = none })
