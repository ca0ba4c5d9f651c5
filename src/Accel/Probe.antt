-- ===== src/Accel/Probe.antt =====
-- accel/spi_accel.c: `adxl345_probe`, `adxl345_spi_probe` and `adxl345_spi_remove`, for every outcome of
-- their calls.
use raspberrypimodules.Prelude.{
  ℕ, ◌*◌, ◌%◌, ◌⊎◌, inl, inr, Bool, true, false, not, List, [], ◌∷◌, Option, none, some, ◌==◌,
  if◌then◌else◌, bit_and, bit_or,
}
use raspberrypimodules.Prelude.Options.{◌>>=◌}
use raspberrypimodules.Prelude.Ledger.{Resource, release}
use raspberrypimodules.Prelude.Int.{pos}
use raspberrypimodules.Prelude.Errno.{Ret, Errno}
use raspberrypimodules.Accel.Device.{
  PlatformData, Adxl345, ac_write, adxl345_spi_read, devid, thresh_tap, dur, tap_axes, bw_rate,
  power_ctl, int_enable, int_map, data_format, fifo_ctl, single_tap, taps_enabled, rate, rate_bits,
}

-- What the driver itself gives back: its sysfs files and the registration of the input device.
pub data Part : Type 0 where
  group input : Part

abbrev same_part : Part → Part → Bool
same_part Part.group Part.group = true
same_part Part.input Part.input = true
same_part a b = false

instance abbrev pub part_resource : Resource Part
part_resource = record { same = same_part }

abbrev pub Held : Type 0
Held = List Part

-- Which of the allocations succeed, the answer to the read of DEVID, the errors of the other calls, and those
-- of the writes to the registers.
pub record Outcomes : Type 0 where
  pub kzalloc : Bool
  pub input_allocate : Bool
  pub revid : ℕ
  pub gpiod_get : Option Errno
  pub gpiod_to_irq : Option Errno
  pub request_irq : Option Errno
  pub create_group : Option Errno
  pub input_register : Option Errno
  pub write : (reg : ℕ) → Option Errno

-- `adxl345_default_init`, with the kernel's number of BTN_TOUCH.
abbrev pub adxl345_default_init : (btn_touch : ℕ) → PlatformData
adxl345_default_init btn_touch = record {
  low_power_mode = 0;
  tap_threshold = 50;
  tap_duration = 3;
  tap_axis_control = 1;
  data_rate = 8;
  data_range = 8;
  ev_code_tap = btn_touch ∷ btn_touch ∷ btn_touch ∷ [];
  fifo_mode = 0;
  watermark = 0;
}

-- A pointer, as an error or what it points to, and what is held; none gives back what is not.
abbrev pub Probing : Type 0
Probing = Option ((Errno ⊎ Adxl345) × Held)

unfoldable pub err_out : Errno → Held → Probing
err_out e h = some (inl e, h)

unfoldable pub err_remove_attr : Errno → Held → Probing
err_remove_attr e h = do h' ← release Part.group h; err_out e h'

-- FIFO_MODE and SAMPLES
abbrev pub fifo_bits : PlatformData → ℕ
fifo_bits pdata = bit_or (bit_and pdata.fifo_mode 3 * 64) (bit_and pdata.watermark 31)

-- The registers are written one after the other, and the errors are passed over.
module _ (error : (reg : ℕ) → Option Errno) where
  unfoldable pub init_taps : Adxl345 → Adxl345
  init_taps ac = ac_write (error tap_axes) tap_axes ac.pdata.tap_axis_control (
      ac_write (error dur) dur ac.pdata.tap_duration
        (ac_write (error thresh_tap) thresh_tap ac.pdata.tap_threshold ac))

  unfoldable pub init_data : Adxl345 → Adxl345
  init_data ac = ac_write (error fifo_ctl) fifo_ctl (fifo_bits ac.pdata) (
      ac_write (error data_format) data_format ac.pdata.data_range
        (ac_write (error bw_rate) bw_rate (rate_bits ac.pdata (rate ac.pdata.data_rate)) ac))

  unfoldable pub init_interrupts : Adxl345 → Adxl345
  init_interrupts ac =
      ac_write (error power_ctl) power_ctl 8
        (ac_write (error int_enable) int_enable ac.int_mask (ac_write (error int_map) int_map 0 ac))

  unfoldable pub init_registers : Adxl345 → Adxl345
  init_registers ac = init_interrupts (init_data (init_taps ac))

-- Each call of the probe, with its error if it has one, and what follows it.
unfoldable pub register_input : Option Errno → Outcomes → Adxl345 → Held → Probing
register_input none o ac h = some (inr (init_registers o.write ac), Part.input ∷ h)
register_input (some e) o ac h = err_remove_attr e h

unfoldable pub create_group : Option Errno → Outcomes → Adxl345 → Held → Probing
create_group none o ac h = register_input o.input_register o ac (Part.group ∷ h)
create_group (some e) o ac h = err_out e h

unfoldable pub request_irq : Option Errno → Outcomes → Adxl345 → Held → Probing
request_irq none o ac h = create_group o.create_group o ac h
request_irq (some e) o ac h = err_out e h

unfoldable pub get_irq : Option Errno → Outcomes → Adxl345 → Held → Probing
get_irq none o ac h = request_irq o.request_irq o ac h
get_irq (some e) o ac h = err_out e h

unfoldable pub get_gpio : Option Errno → Outcomes → Adxl345 → Held → Probing
get_gpio none o ac h = get_irq o.gpiod_to_irq o ac h
get_gpio (some e) o ac h = err_out e h

-- The mask of the interrupts.
abbrev pub set_mask : Adxl345 → Adxl345
set_mask ac =
    if taps_enabled ac.pdata then record ac { int_mask = bit_or ac.int_mask single_tap } else ac

-- The answer to the read of DEVID becomes a byte.
unfoldable pub check_revid : Outcomes → Adxl345 → Held → Probing
check_revid o ac h =
    if o.revid % 256 == 0xE5 then get_gpio o.gpiod_get o (set_mask ac) h else err_out Errno.enodev h

-- The device as it is allocated, with the default data.
abbrev pub new_device : (btn_touch : ℕ) → Adxl345
new_device btn_touch = record {
  pdata = adxl345_default_init btn_touch;
  saved = record { x = pos 0; y = pos 0; z = pos 0 };
  int_mask = 0;
  transfers = [];
  reports = [];
}

unfoldable pub adxl345_probe : Outcomes → (btn_touch : ℕ) → Held → Probing
adxl345_probe o btn_touch h =
    if not o.kzalloc
    then err_out Errno.enomem h
    else (if not o.input_allocate
        then err_out Errno.enomem h
        else check_revid o (adxl345_spi_read devid (new_device btn_touch)) h)

-- The result, the data of the SPI device, and what is held.
abbrev pub probe_result : (Errno ⊎ Adxl345) × Held → Ret × Option Adxl345 × Held
probe_result (inl e, h) = (Ret.error e, none, h)
probe_result (inr ac, h) = (Ret.value 0, some ac, h)

unfoldable pub adxl345_spi_probe :
    Outcomes → (btn_touch : ℕ) → Held → Option (Ret × Option Adxl345 × Held)
adxl345_spi_probe o btn_touch h = do r ← adxl345_probe o btn_touch h; some (probe_result r)

-- `adxl345_spi_remove`, with the error of its write.
unfoldable pub adxl345_spi_remove : Option Errno → Adxl345 → Held → Option (Adxl345 × Held)
adxl345_spi_remove error ac h = do
  h1 ← release Part.group h
  h2 ← release Part.input h1
  some (ac_write error power_ctl 0 ac, h2)
