-- ===== src/CharDevices.antt =====
-- The small modules that register a character device: what each holds of the kernel, from its registration to its
-- removal.
pub mod ClassModule
pub mod CharModule
pub mod Platform
use raspberrypimodules.Prelude.{Bool, true, false, Option, none, some}
use raspberrypimodules.Prelude.Ledger.{Resource}
use raspberrypimodules.Prelude.Errno.{Errno}

-- A device number, the `cdev`, the class, its device, a miscellaneous device and a UIO device.
pub data Part : Type 0 where
  region cdev hello_class device misc uio : Part

abbrev same_part : Part → Part → Bool
same_part Part.region Part.region = true
same_part Part.cdev Part.cdev = true
same_part Part.hello_class Part.hello_class = true
same_part Part.device Part.device = true
same_part Part.misc Part.misc = true
same_part Part.uio Part.uio = true
same_part a b = false

instance abbrev pub part_resource : Resource Part
part_resource = record { same = same_part }

-- The error of the first call that fails.
abbrev pub first_error : Option Errno → Option Errno → Option Errno
first_error none later = later
first_error (some e) later = some e
