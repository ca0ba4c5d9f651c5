-- ===== src/Dma/Sg/Probe.antt =====
-- dma/dma_sg.c: `my_probe` and `my_remove`, for every outcome of their calls.
use raspberrypimodules.Prelude.{
  ◌≡◌, ◌⊎◌, inl, inr, refl, Bool, Bool-cases, true, false, ◌&&◌, List, ◌∷◌, Option, none, some,
  if◌then◌else◌,
}
use raspberrypimodules.Prelude.Options.{◌>>=◌}
use raspberrypimodules.Prelude.Ledger.{Resource, release}
use raspberrypimodules.Prelude.Errno.{Ret, Errno}

-- What the driver itself gives back: the registration of its device, the two coherent buffers, and the DMA
-- channel. The last part is what the removal names in place of a buffer: the address of the variable that
-- points to it.
pub data Part : Type 0 where
  misc src_coherent dst_coherent channel variable : Part

abbrev same_part : Part → Part → Bool
same_part Part.misc Part.misc = true
same_part Part.src_coherent Part.src_coherent = true
same_part Part.dst_coherent Part.dst_coherent = true
same_part Part.channel Part.channel = true
same_part Part.variable Part.variable = true
same_part a b = false

instance abbrev pub part_resource : Resource Part
part_resource = record { same = same_part }

abbrev pub Held : Type 0
Held = List Part

-- The error of `misc_register`, which of the six buffers can be allocated, in their order, and whether there are
-- the coherent buffers and a channel.
pub record Outcomes : Type 0 where
  pub misc : Option Errno
  pub buffers : Bool × Bool × Bool × Bool × Bool × Bool
  pub src_coherent : Bool
  pub dst_coherent : Bool
  pub channel : Bool

unfoldable pub request_channel : Outcomes → Held → Ret × Held
request_channel o h =
    if o.channel then (Ret.value 0, Part.channel ∷ h) else (Ret.error Errno.einval, h)

unfoldable pub allocate_dst : Outcomes → Held → Ret × Held
allocate_dst o h =
    if o.dst_coherent
    then request_channel o (Part.dst_coherent ∷ h)
    else (Ret.error Errno.enomem, h)

unfoldable pub allocate_src : Outcomes → Held → Ret × Held
allocate_src o h =
    if o.src_coherent then allocate_dst o (Part.src_coherent ∷ h) else (Ret.error Errno.enomem, h)

abbrev all_of : Bool × Bool × Bool × Bool × Bool × Bool → Bool
all_of (w, w2, w3, r, r2, r3) = w && w2 && w3 && r && r2 && r3

-- The six buffers, of which the kernel gives back each by itself.
unfoldable pub allocate_buffers : Outcomes → Held → Ret × Held
allocate_buffers o h = if all_of o.buffers then allocate_src o h else (Ret.error Errno.enomem, h)

unfoldable pub register_misc : Option Errno → Outcomes → Held → Ret × Held
register_misc none o h = allocate_buffers o (Part.misc ∷ h)
register_misc (some e) o h = (Ret.error e, h)

unfoldable pub my_probe : Outcomes → Held → Ret × Held
my_probe o h = register_misc o.misc o h

-- `my_remove`; none frees what is not allocated.
unfoldable pub my_remove : Held → Option (Ret × Held)
my_remove h = do
  h1 ← release Part.misc h
  h2 ← release Part.channel h1
  h3 ← release Part.variable h2
  h4 ← release Part.variable h3
  some (Ret.value 0, h4)

-- What the probe leaves: all its parts, which the removal does not give back; or nothing, if
-- `misc_register` fails; or the registered device and what else was acquired before an error.
abbrev pub Kept : Option Errno → Held → Ret × Held → Type 0
Kept (some f) h (r, h1) = (r ≡ Ret.error f) × (h1 ≡ h)
Kept none h (Ret.value n, h1) =
    (n ≡ 0)
    × (h1 ≡ Part.channel ∷ Part.dst_coherent ∷ Part.src_coherent ∷ Part.misc ∷ h)
    × (my_remove h1 ≡ none)
Kept none h (Ret.error e, h1) =
    (h1 ≡ Part.misc ∷ h)
    ⊎ (h1 ≡ Part.src_coherent ∷ Part.misc ∷ h)
    ⊎ (h1 ≡ Part.dst_coherent ∷ Part.src_coherent ∷ Part.misc ∷ h)

-- Parts that were held before, none of which is a variable.
abbrev pub NoVariable : Held → Type 0
NoVariable h = release Part.variable h ≡ none

module _ (o : Outcomes) (h : Held) (v : NoVariable h) where
  channel-Kept :
      Kept none h (request_channel o (Part.dst_coherent ∷ Part.src_coherent ∷ Part.misc ∷ h))
  unfolding request_channel my_remove
  channel-Kept = elim (Bool-cases o.channel) [
    | inl e ↦ simp e (refl, refl, simp v refl)
    | inr e ↦ simp e (inr (inr refl))
  ]

  dst-Kept : Kept none h (allocate_dst o (Part.src_coherent ∷ Part.misc ∷ h))
  unfolding allocate_dst
  dst-Kept = elim (Bool-cases o.dst_coherent) [
    | inl e ↦ simp e channel-Kept
    | inr e ↦ simp e (inr (inl refl))
  ]

  src-Kept : Kept none h (allocate_src o (Part.misc ∷ h))
  unfolding allocate_src
  src-Kept = elim (Bool-cases o.src_coherent) [
    | inl e ↦ simp e dst-Kept
    | inr e ↦ simp e (inl refl)
  ]

  buffers-Kept : Kept none h (allocate_buffers o (Part.misc ∷ h))
  unfolding allocate_buffers
  buffers-Kept = allocated (all_of o.buffers)
    where
      allocated :
          (b : Bool)
          → Kept none h (
              if b then allocate_src o (Part.misc ∷ h) else (Ret.error Errno.enomem, Part.misc ∷ h))
      allocated true = src-Kept
      allocated false = inl refl

-- If no variable is an allocation, then whichever calls fail: if `misc_register` does, nothing is held more than
-- before. Otherwise an error leaves the device registered, with neither buffers nor channel behind it, or
-- also one or both of the coherent buffers; and where the probe returns 0, the removal frees what is not
-- allocated.
my_probe-Kept : (o : Outcomes) (h : Held) → NoVariable h → Kept o.misc h (my_probe o h)
unfolding my_probe register_misc
my_probe-Kept o h v = registered o.misc
  where
    registered : (r : Option Errno) → Kept r h (register_misc r o h)
    registered none = buffers-Kept o h v
    registered (some e) = (refl, refl)
