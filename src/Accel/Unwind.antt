-- ===== src/Accel/Unwind.antt =====
-- accel/spi_accel.c: what the probe leaves, whichever of its calls fail.
use raspberrypimodules.Prelude.{◌%◌, ◌≡◌, Bool, true, false, ◌&&◌, ◌∷◌, Option, none, some, ◌==◌}
use raspberrypimodules.Prelude.Options.{◌>>=◌}
use raspberrypimodules.Prelude.Errno.{Ret, Errno}
use raspberrypimodules.Accel.Device.{Adxl345, power_ctl}
use raspberrypimodules.Accel.Probe.{
  Part, part_resource, Held, Outcomes, Probing, create_group, request_irq, probe_result,
  adxl345_spi_remove,
}
use raspberrypimodules.Accel.Registers.{register, known, ok, Configured}

abbrev pub calls_succeed : Outcomes → Bool
calls_succeed o =
    ok o.gpiod_get
    && ok o.gpiod_to_irq
    && ok o.request_irq
    && ok o.create_group
    && ok o.input_register

-- Every call succeeds and the chip is an ADXL345.
abbrev pub succeeds : Outcomes → Bool
succeeds o = o.kzalloc && o.input_allocate && (o.revid % 256 == 0xE5) && calls_succeed o

-- What the probe leaves: a chip of which each register is set up whose write succeeded, with the files and the
-- input device held, both of which the removal gives back, and which it stops if its own write succeeds; or what was
-- held before.
abbrev pub Probed : (well : Bool) → Outcomes → Held → Option (Ret × Option Adxl345 × Held) → Type 0
Probed true o h (some (Ret.value n, some ac, h1)) =
    (n ≡ 0)
    × Configured (λ reg. ok (o.write reg)) ac
    × (h1 ≡ Part.input ∷ Part.group ∷ h)
    × ((error : Option Errno)
        → (stopped : Adxl345) × (adxl345_spi_remove error ac h1 ≡ some (stopped, h))
          × (register stopped.transfers power_ctl ≡ known error 0))
Probed false o h (some (Ret.error e, none, h1)) = h1 ≡ h
Probed well o h m = ⊥

abbrev Ends : (well : Bool) → Outcomes → Held → Probing → Type 0
Ends well o h m = Probed well o h (m >>= λ r. some (probe_result r))
