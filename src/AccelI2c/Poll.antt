-- ===== src/AccelI2c/Poll.antt =====
-- accel/i2c_accel.c: what a reader of the input device sees of a series of polls.
use raspberrypimodules.Prelude.{
  ℕ, ◌-◌, ◌<◌, ◌≡◌, refl, ap, ◌∙◌, Bool, false, ◌&&◌, List, [], ◌∷◌, arith, ltb, if◌then◌else◌,
}
use raspberrypimodules.Prelude.Int.{ℤ, pos, negsuc}
use raspberrypimodules.AccelI2c.{Report, Ioaccel, ioaccel_poll}

-- The polls of a series of answers, the first first.
unfoldable pub poll_all : List ℤ → Ioaccel → Ioaccel
poll_all [] d = d
poll_all (val ∷ vals) d = poll_all vals (ioaccel_poll val d)

-- The state of the key in each frame, the latest first.
abbrev pub frames : List Report → List Bool
frames [] = []
frames (Report.sync ∷ Report.key down ∷ reports) = down ∷ frames reports
frames (Report.sync ∷ reports) = frames reports
frames (Report.key down ∷ reports) = frames reports

-- The high byte of the X axis as a signed number is -(256 - b) for a byte from 128 on. The device leans if it
-- lies from -63 to -2; an error is no reading.
abbrev pub leans : ℤ → Bool
leans (negsuc error) = false
leans (pos byte) = if ltb byte 128 then false else (ltb 1 (256 - byte) && ltb (256 - byte) 64)

abbrev pub AllBytes : List ℤ → Type 0
AllBytes [] = Unit {0}
AllBytes (negsuc error ∷ vals) = AllBytes vals
AllBytes (pos byte ∷ vals) = (byte < 256) × AllBytes vals

-- The answers of the latest poll first.
abbrev pub leanings : List ℤ → List Bool → List Bool
leanings [] seen = seen
leanings (val ∷ vals) seen = leanings vals (leans val ∷ seen)

byte-leans : (byte : ℕ) → byte < 256 → (ltb 0xc0 byte && ltb byte 0xff) ≡ leans (pos byte)
byte-leans byte h = ground arith

-- For any series of bytes and errors of the bus: a reader of the input device sees one frame for each poll, in
-- which the key is down exactly if the device leans.
poll_all-leanings :
    (vals : List ℤ) (d : Ioaccel)
    → AllBytes vals
    → frames (poll_all vals d).reports ≡ leanings vals (frames d.reports)
unfolding poll_all ioaccel_poll
poll_all-leanings [] d h = refl
poll_all-leanings (negsuc error ∷ vals) d h =
    poll_all-leanings vals (ioaccel_poll (negsuc error) d) h
poll_all-leanings (pos byte ∷ vals) d (b, h) =
    poll_all-leanings vals (ioaccel_poll (pos byte) d) h
    ∙ ap (λ down. leanings vals (down ∷ frames d.reports)) (byte-leans byte b)
