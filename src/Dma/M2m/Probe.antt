-- ===== src/Dma/M2m/Probe.antt =====
-- dma/dma_m2m.c: `my_probe` and `my_remove`, for every outcome of their calls.
use raspberrypimodules.Prelude.{
  ◌≡◌, ◌⊎◌, inl, inr, refl, Bool, true, false, not, List, ◌∷◌, Option, none, some, if◌then◌else◌,
}
use raspberrypimodules.Prelude.Options.{◌>>=◌}
use raspberrypimodules.Prelude.Ledger.{Resource, release}
use raspberrypimodules.Prelude.Errno.{Ret, Errno}

-- What the driver itself gives back: the registration of its device and the DMA channel.
pub data Part : Type 0 where
  misc channel : Part

abbrev same_part : Part → Part → Bool
same_part Part.misc Part.misc = true
same_part Part.channel Part.channel = true
same_part a b = false

instance abbrev pub part_resource : Resource Part
part_resource = record { same = same_part }

abbrev pub Held : Type 0
Held = List Part

-- Which allocations succeed, whether there is a channel, and the error of `misc_register`.
pub record Outcomes : Type 0 where
  pub priv : Bool
  pub wbuf : Bool
  pub rbuf : Bool
  pub channel : Bool
  pub misc : Option Errno

unfoldable pub register_misc : Option Errno → Held → Ret × Held
register_misc none h = (Ret.value 0, Part.misc ∷ h)
register_misc (some e) h = (Ret.error e, h)

unfoldable pub request_channel : Outcomes → Held → Ret × Held
request_channel o h =
    if o.channel then register_misc o.misc (Part.channel ∷ h) else (Ret.error Errno.einval, h)

unfoldable pub allocate_buffers : Outcomes → Held → Ret × Held
allocate_buffers o h =
    if not o.wbuf
    then (Ret.error Errno.enomem, h)
    else (if not o.rbuf then (Ret.error Errno.enomem, h) else request_channel o h)

-- `my_probe`; none follows the pointer to the private structure where there is none.
unfoldable pub my_probe : Outcomes → Held → Option (Ret × Held)
my_probe o h = if o.priv then some (allocate_buffers o h) else none

unfoldable pub my_remove : Held → Option (Ret × Held)
my_remove h = do h1 ← release Part.misc h; h2 ← release Part.channel h1; some (Ret.value 0, h2)

-- What the probe may leave: all that the removal gives back; nothing; or the channel.
abbrev pub Probed : Option Errno → Held → Option (Ret × Held) → Type 0
Probed registered h none = ⊥
Probed registered h (some (Ret.value n, h1)) = (n ≡ 0) × (my_remove h1 ≡ some (Ret.value 0, h))
Probed none h (some (Ret.error e, h1)) = h1 ≡ h
Probed (some f) h (some (Ret.error e, h1)) = (h1 ≡ h) ⊎ ((e ≡ f) × (h1 ≡ Part.channel ∷ h))

register_misc-Probed :
    (r : Option Errno) (h : Held) → Probed r h (some (register_misc r (Part.channel ∷ h)))
unfolding register_misc my_remove
register_misc-Probed none h = (refl, refl)
register_misc-Probed (some e) h = inr (refl, refl)

-- An error before `misc_register`, with nothing held.
early-Probed : (r : Option Errno) (e : Errno) (h : Held) → Probed r h (some (Ret.error e, h))
early-Probed none e h = refl
early-Probed (some f) e h = inl refl

-- If the private structure can be allocated, then whichever calls fail: the probe returns 0, and the removal gives
-- back what is held and returns 0; or it returns an error with nothing held more than before, or, where it
-- is the error of `misc_register`, with the DMA channel.
my_probe-Probed : (o : Outcomes) (h : Held) → o.priv ≡ true → Probed o.misc h (my_probe o h)
unfolding my_probe allocate_buffers request_channel
my_probe-Probed o h p = simp p (buffers o.wbuf o.rbuf o.channel)
  where
    buffers :
        (w r c : Bool)
        → Probed o.misc h (
            some (
              if not w
              then (Ret.error Errno.enomem, h)
              else (if not r
                  then (Ret.error Errno.enomem, h)
                  else (if c
                      then register_misc o.misc (Part.channel ∷ h)
                      else (Ret.error Errno.einval, h)))))
    buffers false r c = early-Probed o.misc Errno.enomem h
    buffers true false c = early-Probed o.misc Errno.enomem h
    buffers true true false = early-Probed o.misc Errno.einval h
    buffers true true true = register_misc-Probed o.misc h
