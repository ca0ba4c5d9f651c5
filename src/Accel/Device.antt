-- ===== src/Accel/Device.antt =====
-- accel/spi_accel.c: the transfers on the bus, the axes, the taps and the sysfs files.
use raspberrypimodules.Prelude.{
  ℕ, zero, suc, ◌+◌, ◌-◌, ◌*◌, ◌%◌, ◌^◌, Bool, true, false, not, List, [], ◌∷◌, ◌==◌, if◌then◌else◌,
  get_or, bit_and, bit_or,
}
use raspberrypimodules.Prelude.Int.{ℤ}
use raspberrypimodules.Prelude.{Option, none, some}
use raspberrypimodules.Prelude.Errno.{Ret, Errno}

-- The registers.
abbrev pub devid : ℕ
devid = 0x00

abbrev pub thresh_tap : ℕ
thresh_tap = 0x1D

abbrev pub dur : ℕ
dur = 0x21

abbrev pub tap_axes : ℕ
tap_axes = 0x2A

abbrev pub act_tap_status : ℕ
act_tap_status = 0x2B

abbrev pub bw_rate : ℕ
bw_rate = 0x2C

abbrev pub power_ctl : ℕ
power_ctl = 0x2D

abbrev pub int_enable : ℕ
int_enable = 0x2E

abbrev pub int_map : ℕ
int_map = 0x2F

abbrev pub int_source : ℕ
int_source = 0x30

abbrev pub data_format : ℕ
data_format = 0x31

abbrev pub datax0 : ℕ
datax0 = 0x32

abbrev pub dataz1 : ℕ
dataz1 = 0x37

abbrev pub fifo_ctl : ℕ
fifo_ctl = 0x38

-- What the driver sends: the two bytes of a write, with its error if it has one; the command of a read; that of a read of several
-- registers, and their number.
pub data Transfer : Type 0 where
  spi_write : (command value : ℕ) → Option Errno → Transfer
  spi_w8r8 : (command : ℕ) → Transfer
  spi_write_then_read : (command count : ℕ) → Transfer

-- What the input core is told.
pub data Report : Type 0 where
  key : (code : ℕ) → (press : Bool) → Report
  sync : Report

-- `struct axis_triple`
pub record AxisTriple : Type 0 where
  pub x : ℤ
  pub y : ℤ
  pub z : ℤ

-- `struct adxl345_platform_data`
pub record PlatformData : Type 0 where
  pub low_power_mode : ℕ
  pub tap_threshold : ℕ
  pub tap_duration : ℕ
  pub tap_axis_control : ℕ
  pub data_rate : ℕ
  pub data_range : ℕ
  pub ev_code_tap : List ℕ
  pub fifo_mode : ℕ
  pub watermark : ℕ

-- `struct adxl345` without its pointers, with the transfers and reports, the latest first.
pub record Adxl345 : Type 0 where
  pub pdata : PlatformData
  pub saved : AxisTriple
  pub int_mask : ℕ
  pub transfers : List Transfer
  pub reports : List Report

abbrev pub cmd_multb : ℕ
cmd_multb = 64

abbrev pub cmd_read : ℕ
cmd_read = 128

abbrev pub writecmd : ℕ → ℕ
writecmd reg = bit_and reg 0x3F

abbrev pub readcmd : ℕ → ℕ
readcmd reg = bit_or cmd_read (bit_and reg 0x3F)

abbrev pub readmb_cmd : ℕ → ℕ
readmb_cmd reg = bit_or (bit_or cmd_read cmd_multb) (bit_and reg 0x3F)

abbrev pub transfer : Transfer → Adxl345 → Adxl345
transfer t ac = record ac { transfers = t ∷ ac.transfers }

abbrev result_of : Option Errno → Ret
result_of none = Ret.value 0
result_of (some e) = Ret.error e

-- `adxl345_spi_write`, with the error of `spi_write`, `adxl345_spi_read` and `adxl345_spi_read_block`
unfoldable pub adxl345_spi_write : Option Errno → (reg value : ℕ) → Adxl345 → Ret × Adxl345
adxl345_spi_write error reg value ac =
    (result_of error, transfer (Transfer.spi_write (writecmd reg) value error) ac)

-- `AC_WRITE` as a statement: its result is passed over.
unfoldable pub ac_write : Option Errno → (reg value : ℕ) → Adxl345 → Adxl345
ac_write error reg value ac = (adxl345_spi_write error reg value ac).1

unfoldable pub adxl345_spi_read : (reg : ℕ) → Adxl345 → Adxl345
adxl345_spi_read reg = transfer (Transfer.spi_w8r8 (readcmd reg))

unfoldable pub adxl345_spi_read_block : (reg count : ℕ) → Adxl345 → Adxl345
adxl345_spi_read_block reg count = transfer (Transfer.spi_write_then_read (readmb_cmd reg) count)

-- `le16_to_cpu` of an element of a buffer of bytes.
abbrev pub le16 : List ℕ → ℕ → ℕ
le16 buf i = get_or buf (2 * i) 0 + 256 * get_or buf (2 * i + 1) 0

-- `1 << k` is set in a status.
abbrev pub has_bit : ℕ → ℕ → Bool
has_bit status k = not (bit_and status (2 ^ k) == 0)

abbrev pub report : Report → Adxl345 → Adxl345
report r ac = record ac { reports = r ∷ ac.reports }

-- `sign_extend32` of the kernel.
module _ (sign_extend32 : (value index : ℕ) → ℤ) where
  -- `adxl345_get_triple`; `buf` is what the read leaves in the buffer, whether or not it succeeds.
  unfoldable pub adxl345_get_triple : (buf : List ℕ) → Adxl345 → Adxl345 × AxisTriple
  adxl345_get_triple buf ac =
      let axis : AxisTriple = record {
        x = sign_extend32 (le16 buf 0) 12;
        y = sign_extend32 (le16 buf 1) 12;
        z = sign_extend32 (le16 buf 2) 12;
      } in
      (record (adxl345_spi_read_block datax0 6 ac) { saved = axis }, axis)

  -- `adxl345_position_read`: the axes whose numbers it prints.
  unfoldable pub adxl345_position_read : (buf : List ℕ) → Adxl345 → Adxl345 × AxisTriple
  adxl345_position_read buf ac = adxl345_get_triple buf ac

-- `adxl345_position_show`: the axes whose numbers it prints.
unfoldable pub adxl345_position_show : Adxl345 → AxisTriple
adxl345_position_show ac = ac.saved

-- A round of the loop of `adxl345_send_key_events` for the axis `2 - k`, which looks at the bit k.
unfoldable pub report_axis : (k status : ℕ) → (press : Bool) → Adxl345 → Adxl345
report_axis k status press ac =
    if has_bit status k
    then report (Report.key (get_or ac.pdata.ev_code_tap (2 - k) 0) press) ac
    else ac

-- The rounds that are left.
unfoldable pub send_axes : (left status : ℕ) → (press : Bool) → Adxl345 → Adxl345
send_axes zero status press ac = ac
send_axes (suc k) status press ac = send_axes k status press (report_axis k status press ac)

-- `adxl345_send_key_events`
unfoldable pub adxl345_send_key_events : (status : ℕ) → (press : Bool) → Adxl345 → Adxl345
adxl345_send_key_events = send_axes 3

-- `adxl345_do_tap`
unfoldable pub adxl345_do_tap : (status : ℕ) → Adxl345 → Adxl345
adxl345_do_tap status ac =
    adxl345_send_key_events status false
      (report Report.sync (adxl345_send_key_events status true ac))

abbrev pub single_tap : ℕ
single_tap = 64

-- TAP_X_EN, TAP_Y_EN or TAP_Z_EN
abbrev pub taps_enabled : PlatformData → Bool
taps_enabled pdata = not (bit_and pdata.tap_axis_control 7 == 0)

-- The interrupt handler behind its first read.
unfoldable pub handle_taps : (tap_stat int_stat : ℕ) → Adxl345 → Adxl345
handle_taps tap_stat int_stat ac =
    let read = adxl345_spi_read int_source ac in
    report Report.sync
      (if not (bit_and int_stat single_tap == 0) then adxl345_do_tap tap_stat read else read)

-- `adxl345_irq`; the chip answers its reads with `act_tap` and `int_stat`.
unfoldable pub adxl345_irq : (act_tap int_stat : ℕ) → Adxl345 → Adxl345
adxl345_irq act_tap int_stat ac =
    if taps_enabled ac.pdata
    then handle_taps act_tap int_stat (adxl345_spi_read act_tap_status ac)
    else handle_taps 0 int_stat ac

abbrev pub rate : ℕ → ℕ
rate n = bit_and n 15

-- The value of the register BW_RATE.
abbrev pub rate_bits : PlatformData → (data_rate : ℕ) → ℕ
rate_bits pdata data_rate = bit_or data_rate (if pdata.low_power_mode == 0 then 0 else 16)

-- `adxl345_rate_show`: the number that it prints.
unfoldable pub adxl345_rate_show : Adxl345 → ℕ
adxl345_rate_show ac = rate ac.pdata.data_rate

abbrev set_rate : ℕ → Adxl345 → Adxl345
set_rate n ac = record ac { pdata = record ac.pdata { data_rate = n } }

-- `adxl345_rate_store`; `parsed` is what `kstrtou8` stores in a byte, or its error, and `error`
-- that of the write.
unfoldable pub adxl345_rate_store :
    (parsed : Ret) → Option Errno → (count : ℕ) → Adxl345 → Ret × Adxl345
adxl345_rate_store (Ret.error e) error count ac = (Ret.error e, ac)
adxl345_rate_store (Ret.value n) error count ac =
    let val = n % 256 in
    (
      Ret.value count,
      ac_write error bw_rate (rate_bits ac.pdata (rate val)) (set_rate (rate val) ac),
    )

-- What may happen while the device is bound.
pub data Event : Type 0 where
  irq : (act_tap int_stat : ℕ) → Event
  store_rate : (parsed : Ret) → Option Errno → (count : ℕ) → Event
  show_rate show_position : Event
  read_position : (buf : List ℕ) → Event

module _ (sign_extend32 : (value index : ℕ) → ℤ) where
  unfoldable pub handle : Event → Adxl345 → Adxl345
  handle (Event.irq act_tap int_stat) ac = adxl345_irq act_tap int_stat ac
  handle (Event.store_rate parsed error count) ac = (adxl345_rate_store parsed error count ac).1
  handle Event.show_rate ac = ac
  handle Event.show_position ac = ac
  handle (Event.read_position buf) ac = (adxl345_position_read sign_extend32 buf ac).0

  unfoldable pub run : List Event → Adxl345 → Adxl345
  run [] ac = ac
  run (e ∷ rest) ac = run rest (handle e ac)
