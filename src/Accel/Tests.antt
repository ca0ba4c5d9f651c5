-- ===== src/Accel/Tests.antt =====
-- The theorems on accel/spi_accel.c at concrete devices.
use raspberrypimodules.Prelude.{
  ℕ, ◌+◌, ◌-◌, ◌%◌, ◌^◌, ◌≡◌, refl, true, false, [], ◌∷◌, List, none, some, arith, ltb, ◌==◌,
  if◌then◌else◌, lt→ltb, le→ltb,
}
use raspberrypimodules.Prelude.Int.{ℤ, pos, negsuc}
use raspberrypimodules.Prelude.Errno.{Ret, Errno}
use raspberrypimodules.Accel.Device.{
  Transfer, AxisTriple, Adxl345, Event, readmb_cmd, readcmd, datax0, int_source, act_tap_status,
  adxl345_position_read, adxl345_position_show, adxl345_irq, run, bw_rate,
}
use raspberrypimodules.Accel.Taps.{down, at_syncs, adxl345_irq-syncs}
use raspberrypimodules.Accel.Axes.{
  SignExtends, data_bytes, adxl345_position_read-adxl345_position_show,
}
use raspberrypimodules.Accel.Probe.{Outcomes, new_device, init_registers}
use raspberrypimodules.Accel.Registers.{
  Configured, good_at_end, init_registers-Configured, run-Configured,
}

abbrev sign_extend : (value index : ℕ) → ℤ
sign_extend value index =
    let low = value % 2 ^ (index + 1) in
    if ltb low (2 ^ index) then pos low else negsuc (2 ^ (index + 1) - 1 - low)

sign_extend-SignExtends : SignExtends sign_extend
sign_extend-SignExtends = record {
  of_pos = λ value index h. rw (lt→ltb _ _ h) refl;
  of_neg = λ value index h. rw (le→ltb _ _ h) refl;
}

-- A device as the probe leaves it, with 330 for BTN_TOUCH.
abbrev device : Adxl345
device = init_registers (λ reg. none) (new_device 330)

abbrev tilted : AxisTriple
tilted = record { x = pos 17; y = negsuc 3; z = pos 255 }

adxl345_position_read-adxl345_position_show_example :
    let (ac, printed) = adxl345_position_read sign_extend (data_bytes tilted) device in
    (printed ≡ tilted)
    × (adxl345_position_show ac ≡ tilted)
    × (ac.transfers ≡ Transfer.spi_write_then_read (readmb_cmd datax0) 6 ∷ device.transfers)
adxl345_position_read-adxl345_position_show_example =
    adxl345_position_read-adxl345_position_show sign_extend-SignExtends tilted device (omega arith)
      (omega arith) (omega arith)

adxl345_irq-syncs_example :
    let after : Adxl345 = adxl345_irq 1 64 (new_device 330) in
    (at_syncs 330 after.reports ≡ false ∷ true ∷ [])
    × (down 330 after.reports ≡ false)
    × (after.transfers
        ≡ Transfer.spi_w8r8 (readcmd int_source) ∷ Transfer.spi_w8r8 (readcmd act_tap_status) ∷ [])
    × (after.pdata ≡ (new_device 330).pdata)
    × (after.int_mask ≡ 0)
adxl345_irq-syncs_example = adxl345_irq-syncs 1 64 330 (new_device 330)

abbrev events : List Event
events =
    Event.store_rate (Ret.value 26) none 3
    ∷ Event.store_rate (Ret.value 4) (some Errno.eio) 2
    ∷ Event.irq 1 64
    ∷ Event.show_rate
    ∷ []

run-Configured_example : Configured (good_at_end events λ reg. true) (run sign_extend events device)
run-Configured_example =
    run-Configured sign_extend events (init_registers-Configured (λ reg. none) (new_device 330))

-- All calls succeed but the write to BW_RATE.
abbrev rate_unset : Outcomes
rate_unset = record {
  kzalloc = true;
  input_allocate = true;
  revid = 0xE5;
  gpiod_get = none;
  gpiod_to_irq = none;
  request_irq = none;
  create_group = none;
  input_register = none;
  write = λ reg. if reg == bw_rate then some Errno.eio else none;
}
