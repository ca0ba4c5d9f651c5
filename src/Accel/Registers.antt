-- ===== src/Accel/Registers.antt =====
-- accel/spi_accel.c: the registers of the chip, as the driver has set them.
use raspberrypimodules.Prelude.{
  ℕ, ◌%◌, ◌≡◌, refl, ap, sym, ◌∙◌, Bool, true, false, ◌&&◌, List, [], ◌∷◌, Option, none, some, ◌==◌,
  ltb, if◌then◌else◌, arith,
}
use raspberrypimodules.Prelude.Int.{ℤ}
use raspberrypimodules.Prelude.Bytes.{bytes_pass, bytes_pass_at}
use raspberrypimodules.Prelude.Errno.{Ret, Errno}
use raspberrypimodules.Accel.Device.{
  Transfer, Adxl345, adxl345_spi_write, ac_write, adxl345_spi_read_block, adxl345_irq,
  adxl345_rate_store, adxl345_get_triple, adxl345_position_read, Event, handle, run, thresh_tap,
  dur, tap_axes, bw_rate, power_ctl, int_enable, int_map, data_format, fifo_ctl, rate, rate_bits,
  readcmd, int_source, act_tap_status,
}
use raspberrypimodules.Accel.Taps.{adxl345_irq-syncs}
use raspberrypimodules.Accel.Probe.{
  part_resource, fifo_bits, init_taps, init_data, init_interrupts, init_registers,
}

-- What a register is known to hold behind a write to it: the value, or nothing where the write failed.
abbrev pub known : Option Errno → ℕ → Option ℕ
known none value = some value
known (some e) value = none

-- What a register is known to hold by the last write to it: bit 7 of a command is that of a read, and the lowest
-- six bits are the register.
abbrev pub register : List Transfer → ℕ → Option ℕ
register [] reg = none
register (Transfer.spi_write command value error ∷ rest) reg =
    let before = register rest reg in
    if ltb command 128 && (command % 64 == reg) then known error value else before
register (Transfer.spi_w8r8 command ∷ rest) reg = register rest reg
register (Transfer.spi_write_then_read command count ∷ rest) reg = register rest reg

-- A call without an error.
abbrev pub ok : Option Errno → Bool
ok none = true
ok (some e) = false

known-ok : (error : Option Errno) (value : ℕ) → ok error ≡ true → known error value ≡ some value
known-ok none value h = refl
known-ok (some e) value h = cc

-- The chip measures, and is set up as the driver's data says, in the registers whose last write was `good`.
pub record Configured (good : ℕ → Bool) (ac : Adxl345) : Type 0 where
  pub thresh_tap :
      good thresh_tap ≡ true → register ac.transfers thresh_tap ≡ some ac.pdata.tap_threshold
  pub dur : good dur ≡ true → register ac.transfers dur ≡ some ac.pdata.tap_duration
  pub tap_axes :
      good tap_axes ≡ true → register ac.transfers tap_axes ≡ some ac.pdata.tap_axis_control
  pub bw_rate :
      good bw_rate ≡ true
      → register ac.transfers bw_rate ≡ some (rate_bits ac.pdata (rate ac.pdata.data_rate))
  pub data_format :
      good data_format ≡ true → register ac.transfers data_format ≡ some ac.pdata.data_range
  pub fifo_ctl : good fifo_ctl ≡ true → register ac.transfers fifo_ctl ≡ some (fifo_bits ac.pdata)
  pub int_map : good int_map ≡ true → register ac.transfers int_map ≡ some 0
  pub int_enable : good int_enable ≡ true → register ac.transfers int_enable ≡ some ac.int_mask
  pub power_ctl : good power_ctl ≡ true → register ac.transfers power_ctl ≡ some 8

pub init_registers-Configured :
    (error : (reg : ℕ) → Option Errno) (ac : Adxl345)
    → Configured (λ reg. ok (error reg)) (init_registers error ac)
unfolding init_registers init_interrupts init_data init_taps ac_write adxl345_spi_write
init_registers-Configured error ac = record {
  thresh_tap = known-ok (error thresh_tap) _;
  dur = known-ok (error dur) _;
  tap_axes = known-ok (error tap_axes) _;
  bw_rate = known-ok (error bw_rate) _;
  data_format = known-ok (error data_format) _;
  fifo_ctl = known-ok (error fifo_ctl) _;
  int_map = known-ok (error int_map) _;
  int_enable = known-ok (error int_enable) _;
  power_ctl = known-ok (error power_ctl) _;
}

-- The driver's data and what it has written are the same.
transported :
    {good : ℕ → Bool} {a b : Adxl345}
    → Configured good a
    → ((reg : ℕ) → register b.transfers reg ≡ register a.transfers reg)
    → b.pdata ≡ a.pdata
    → b.int_mask ≡ a.int_mask
    → Configured good b
transported i regs same mask = record {
  thresh_tap = λ h. regs thresh_tap ∙ i.thresh_tap h ∙ ap (λ p. some p.tap_threshold) (sym same);
  dur = λ h. regs dur ∙ i.dur h ∙ ap (λ p. some p.tap_duration) (sym same);
  tap_axes = λ h. regs tap_axes ∙ i.tap_axes h ∙ ap (λ p. some p.tap_axis_control) (sym same);
  bw_rate =
      λ h. regs bw_rate ∙ i.bw_rate h ∙ ap (λ p. some (rate_bits p (rate p.data_rate))) (sym same);
  data_format = λ h. regs data_format ∙ i.data_format h ∙ ap (λ p. some p.data_range) (sym same);
  fifo_ctl = λ h. regs fifo_ctl ∙ i.fifo_ctl h ∙ ap (λ p. some (fifo_bits p)) (sym same);
  int_map = λ h. regs int_map ∙ i.int_map h;
  int_enable = λ h. regs int_enable ∙ i.int_enable h ∙ ap some (sym mask);
  power_ctl = λ h. regs power_ctl ∙ i.power_ctl h;
}

read_taps :
    (b : Bool) (read1 read2 : ℕ) (ts : List Transfer) (reg : ℕ)
    → register (Transfer.spi_w8r8 read1 ∷ (if b then Transfer.spi_w8r8 read2 ∷ ts else ts)) reg
      ≡ register ts reg
read_taps true read1 read2 ts reg = refl
read_taps false read1 read2 ts reg = refl

irq-Configured :
    (act_tap int_stat : ℕ) {good : ℕ → Bool} {ac : Adxl345}
    → Configured good ac
    → Configured good (adxl345_irq act_tap int_stat ac)
irq-Configured act_tap int_stat {good} {ac} i =
    let (_, _, reads, same, mask) = adxl345_irq-syncs act_tap int_stat 0 ac in
    transported i
      (λ reg.
        ap (λ l. register l reg) reads
        ∙ read_taps _ (readcmd int_source) (readcmd act_tap_status) ac.transfers reg)
      same mask

rate_passes : bytes_pass (λ v. rate (rate v) == rate v) 256 ≡ true
unfolding bytes_pass
rate_passes = refl

rate_twice : (n : ℕ) → rate (rate (n % 256)) ≡ rate (n % 256)
rate_twice n =
    let same : (rate (rate (n % 256)) == rate (n % 256)) ≡ true =
      bytes_pass_at (λ v. rate (rate v) == rate v) 256 (omega arith) rate_passes in
    ground arith

-- The registers whose last write was good, behind an event: a rate that is parsed is written to BW_RATE.
abbrev pub good_after : Event → (ℕ → Bool) → ℕ → Bool
good_after (Event.store_rate (Ret.value n) error count) good =
    λ reg. if reg == bw_rate then ok error else good reg
good_after (Event.store_rate (Ret.error e) error count) good = good
good_after (Event.irq act_tap int_stat) good = good
good_after Event.show_rate good = good
good_after Event.show_position good = good
good_after (Event.read_position buf) good = good

abbrev pub good_at_end : List Event → (ℕ → Bool) → ℕ → Bool
good_at_end [] good = good
good_at_end (e ∷ rest) good = good_at_end rest (good_after e good)

rate_store-Configured :
    (parsed : Ret) (error : Option Errno) (count : ℕ) {good : ℕ → Bool} {ac : Adxl345}
    → Configured good ac
    → Configured
        (good_after (Event.store_rate parsed error count) good)
        (adxl345_rate_store parsed error count ac).1
unfolding adxl345_rate_store ac_write adxl345_spi_write
rate_store-Configured (Ret.error e) error count i = i
rate_store-Configured (Ret.value n) error count {good} {ac} i = record {
  thresh_tap = i.thresh_tap;
  dur = i.dur;
  tap_axes = i.tap_axes;
  bw_rate = λ h. known-ok error _ h ∙ ap (λ r. some (rate_bits ac.pdata r)) (sym (rate_twice n));
  data_format = i.data_format;
  fifo_ctl = i.fifo_ctl;
  int_map = i.int_map;
  int_enable = i.int_enable;
  power_ctl = i.power_ctl;
}

module _ (sign_extend32 : (value index : ℕ) → ℤ) where
  position_read-Configured :
      (buf : List ℕ) {good : ℕ → Bool} {ac : Adxl345}
      → Configured good ac
      → Configured good (adxl345_position_read sign_extend32 buf ac).0
  unfolding adxl345_position_read adxl345_get_triple adxl345_spi_read_block
  position_read-Configured buf i = transported i (λ reg. refl) refl refl

  handle-Configured :
      (e : Event) {good : ℕ → Bool} {ac : Adxl345}
      → Configured good ac
      → Configured (good_after e good) (handle sign_extend32 e ac)
  unfolding handle
  handle-Configured (Event.irq act_tap int_stat) i = irq-Configured act_tap int_stat i
  handle-Configured (Event.store_rate (Ret.value n) error count) i =
      rate_store-Configured (Ret.value n) error count i
  handle-Configured (Event.store_rate (Ret.error e) error count) i =
      rate_store-Configured (Ret.error e) error count i
  handle-Configured Event.show_rate i = i
  handle-Configured Event.show_position i = i
  handle-Configured (Event.read_position buf) i = position_read-Configured buf i

  -- While the device is bound, whatever interrupts and uses of the sysfs files happen, with writes that may fail:
  -- every register whose last write succeeded holds what the driver's data says. For BW_RATE, the data rate and
  -- power mode, that is the write of the last rate that was parsed, if there was one; for the others, and for
  -- BW_RATE without one, it is the write before these events. Of a register whose last write failed nothing is said.
  pub run-Configured :
      (events : List Event) {good : ℕ → Bool} {ac : Adxl345}
      → Configured good ac
      → Configured (good_at_end events good) (run sign_extend32 events ac)
  unfolding run
  run-Configured [] i = i
  run-Configured (e ∷ rest) i = run-Configured rest (handle-Configured e i)
