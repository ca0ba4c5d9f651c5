-- ===== src/AccelI2c.antt =====
-- accel/i2c_accel.c: an accelerometer that is polled, as a key.
pub mod Poll
use raspberrypimodules.Prelude.{
  ℕ, Bool, true, false, ◌&&◌, not, List, [], ◌∷◌, Option, none, some, if◌then◌else◌,
}
use raspberrypimodules.Prelude.Int.{ℤ, pos, negsuc, above, below}
use raspberrypimodules.Prelude.Errno.{Ret, Errno}

-- What the driver tells the input device: the state of KEY_1, or the end of a frame.
pub data Report : Type 0 where
  key : Bool → Report
  sync : Report

-- `struct ioaccel_dev`: the stores to registers of the chip, whether the polled device is registered, and the
-- reports, the latest first.
pub record Ioaccel : Type 0 where
  pub stores : List (ℕ × ℕ)
  pub registered : Bool
  pub reports : List Report

-- `ioaccel_poll`, with what `i2c_smbus_read_byte_data` returns: a byte, or a negative error.
unfoldable pub ioaccel_poll : ℤ → Ioaccel → Ioaccel
ioaccel_poll val d = record d {
  reports = Report.sync ∷ Report.key (above val 0xc0 && below val 0xff) ∷ d.reports;
}

abbrev pub power_ctl : ℕ
power_ctl = 0x2D

abbrev pub pctl_measure : ℕ
pctl_measure = 8

-- `ioaccel_probe` behind the allocation of the polled device, which may be NULL; the result of the
-- registration is not looked at.
unfoldable pub set_up : (polled : Bool) → (registered : Bool) → Ioaccel → Option (Ret × Ioaccel)
set_up false registered d = none
set_up true registered d = some (Ret.value 0, record d { registered = registered })

-- `ioaccel_probe`: which allocations and which registration succeed.
unfoldable pub ioaccel_probe : (allocated polled registered : Bool) → Option (Ret × Option Ioaccel)
ioaccel_probe false polled registered = some (Ret.error Errno.enomem, none)
ioaccel_probe true polled registered = with_device (
    set_up polled registered
      (record { stores = (power_ctl, pctl_measure) ∷ []; registered = false; reports = [] }))
  where
    with_device : Option (Ret × Ioaccel) → Option (Ret × Option Ioaccel)
    with_device none = none
    with_device (some (r, d)) = some (r, some d)

-- `ioaccel_remove`; none unregisters what is not registered.
unfoldable pub ioaccel_remove : Ioaccel → Option (Ret × Ioaccel)
ioaccel_remove d =
    if d.registered then some (Ret.value 0, record d { registered = false }) else none
