-- ===== src/Keyled/Device.antt =====
-- keyled/keyled_rpi_class.c: the private state, the thread, the sysfs files and the interrupts.
use raspberrypimodules.Prelude.{
  ℕ, ◌%◌, Bool, true, false, not, ◌||◌, List, [], ◌∷◌, Option, none, some, ◌==◌, ltb, if◌then◌else◌,
  length, set, map,
}
use raspberrypimodules.Prelude.Errno.{Ret, Errno}
use raspberrypimodules.Prelude.Options.{◌>>=◌}
use raspberrypimodules.Prelude.Strings.{same_string, command, on, off}
use raspberrypimodules.Prelude.Words.{int_add, int_sub, int_lt, int_mod}

-- `struct keyled_priv`, with the level of each LED's pin (an LED is lit at level 0), the LED of the
-- thread that runs, and the level that the thread has set last.
pub record Priv : Type 0 where
  pub leds : List Bool
  pub led_flag : ℕ
  pub task_flag : ℕ
  pub period : ℕ
  pub task : Option ℕ
  pub value : Bool

-- `gpiod_set_value` of one LED, and of all.
abbrev pub set_level : ℕ → Bool → Priv → Priv
set_level i level s = record s { leds = set s.leds i level }

abbrev pub set_all : Priv → Priv
set_all s = record s { leds = map (λ level. true) s.leds }

-- One round of `led_flash`.
abbrev pub flash_led : Option ℕ → Priv → Priv
flash_led none s = s
flash_led (some i) s = record s { leds = set s.leds i (not s.value); value = not s.value }

unfoldable pub led_flash : Priv → Priv
led_flash s = flash_led s.task s

-- `kthread_stop`: the thread leaves its loop and switches its LED off; none where there is no thread.
unfoldable pub kthread_stop : Option ℕ → Priv → Option Priv
kthread_stop none s = none
kthread_stop (some i) s = some (record s { leds = set s.leds i true; task = none })

-- The thread is stopped if the flag says that it runs.
unfoldable pub stop_task : Priv → Option Priv
stop_task s =
    if s.task_flag == 1
    then (do t ← kthread_stop s.task s; some (record t { task_flag = 0 }))
    else some s

-- `set_led_store` of the LED i behind its thread stop.
unfoldable pub switch_led : ℕ → List ℕ → Priv → Ret × Priv
switch_led i buf s =
    if same_string (command buf) on
    then (
      Ret.value (length buf),
      if s.led_flag == 1
          then set_level i false (set_all s)
          else record (set_level i false s) { led_flag = 1 },
    )
    else (if same_string (command buf) off
        then (Ret.value (length buf), set_level i true s)
        else (Ret.error Errno.einval, s))

-- `set_led_store`
unfoldable pub set_led_store : ℕ → List ℕ → Priv → Option (Ret × Priv)
set_led_store i buf s = do t ← stop_task s; some (switch_led i buf t)

-- The LEDs that a blinking LED replaces.
abbrev pub clear_lit : Priv → Priv
clear_lit s = if s.led_flag == 1 then set_all s else s

-- `kthread_run` for the LED i; `failed` is its error, if it has one.
abbrev pub start_task : (failed : Option Errno) → ℕ → List ℕ → Priv → Ret × Priv
start_task none i buf s =
    (Ret.value (length buf), record s { task = some i; value = false; task_flag = 1 })
start_task (some e) i buf s = (Ret.error e, s)

-- `blink_on_led_store` of the LED i behind the switching off.
unfoldable pub blink_led : (failed : Option Errno) → ℕ → List ℕ → Priv → Ret × Priv
blink_led failed i buf s =
    if same_string (command buf) on
    then (if s.task_flag == 0 then start_task failed i buf s else (Ret.error Errno.ebusy, s))
    else (Ret.error Errno.einval, s)

-- `blink_on_led_store`
unfoldable pub blink_on_led_store : (failed : Option Errno) → ℕ → List ℕ → Priv → Ret × Priv
blink_on_led_store failed i buf s = blink_led failed i buf (clear_lit s)

-- `blink_off_led_store`
unfoldable pub blink_off_led_store : List ℕ → Priv → Option (Ret × Priv)
blink_off_led_store buf s =
    if same_string (command buf) off
    then (if s.task_flag == 1
        then (do
          t ← kthread_stop s.task s
          some (Ret.value (length buf), record (set_all t) { task_flag = 0 }))
        else some (Ret.value 0, s))
    else some (Ret.error Errno.einval, s)

-- `set_period_store`; `scanned` is the number that `sscanf` stores as an `int`, if it stores one.
unfoldable pub set_period_store : (scanned : Option ℕ) → (count : ℕ) → Priv → Ret × Priv
set_period_store none count s = (Ret.error Errno.einval, s)
set_period_store (some n) count s =
    let period = n % int_mod in
    if int_lt period 10 || int_lt 10000 period
    then (Ret.error Errno.einval, s)
    else (Ret.value count, record s { period = period })

-- The bounds of the period, a `u32`.
abbrev pub bounded : ℕ → ℕ
bounded period = if ltb period 10 || ltb 10000 period then 10 else period

-- `KEY_ISR1` and `KEY_ISR2`
unfoldable pub key_isr1 : Priv → Priv
key_isr1 s = record s { period = bounded (int_add s.period 10) }

unfoldable pub key_isr2 : Priv → Priv
key_isr2 s = record s { period = bounded (int_sub s.period 10) }

-- What may happen while the driver is bound.
pub data Event : Type 0 where
  set_led : ℕ → List ℕ → Event
  blink_on : Option Errno → ℕ → List ℕ → Event
  blink_off : List ℕ → Event
  set_period : Option ℕ → ℕ → Event
  key1 key2 round : Event

unfoldable pub handle : Event → Priv → Option Priv
handle (Event.set_led i buf) s = do r ← set_led_store i buf s; some r.1
handle (Event.blink_on failed i buf) s = some (blink_on_led_store failed i buf s).1
handle (Event.blink_off buf) s = do r ← blink_off_led_store buf s; some r.1
handle (Event.set_period scanned count) s = some (set_period_store scanned count s).1
handle Event.key1 s = some (key_isr1 s)
handle Event.key2 s = some (key_isr2 s)
handle Event.round s = some (led_flash s)

unfoldable pub drive : List Event → Priv → Option Priv
drive [] s = some s
drive (e ∷ rest) s = do t ← handle e s; drive rest t
