-- ===== src/Accel/Axes.antt =====
-- accel/spi_accel.c: the acceleration that the chip measures.
use raspberrypimodules.Prelude.{
  ℕ, ◌+◌, ◌-◌, ◌*◌, ◌/◌, ◌%◌, ◌^◌, ◌≤◌, ◌<◌, ◌≡◌, refl, ap, ◌∙◌, List, [], ◌∷◌, arith,
}
use raspberrypimodules.Prelude.Int.{ℤ, pos, negsuc}
use raspberrypimodules.Accel.Device.{
  Transfer, AxisTriple, Adxl345, readmb_cmd, adxl345_spi_read_block, adxl345_get_triple,
  adxl345_position_read, adxl345_position_show, datax0,
}

-- The 16 bits that the chip has for a measured value: two's complement.
abbrev pub pattern : ℤ → ℕ
pattern (pos n) = n
pattern (negsuc n) = 65535 - n

-- A value of 13 bits.
abbrev pub Small : ℤ → Type 0
Small (pos n) = n < 4096
Small (negsuc n) = n < 4096

abbrev pub low_byte : ℤ → ℕ
low_byte v = pattern v % 256

abbrev pub high_byte : ℤ → ℕ
high_byte v = pattern v / 256

-- The registers DATAX0 to DATAZ1: the lower byte of each axis first.
abbrev pub data_bytes : AxisTriple → List ℕ
data_bytes a =
    low_byte a.x ∷ high_byte a.x ∷ low_byte a.y ∷ high_byte a.y ∷ low_byte a.z ∷ high_byte a.z ∷ []

-- What the kernel documents of `sign_extend32`: the bit `index` of the value is its sign, and the bits
-- above it are not read.
pub record SignExtends (sign_extend32 : (value index : ℕ) → ℤ) : Type 0 where
  pub of_pos :
      (value index : ℕ)
      → value % 2 ^ (index + 1) < 2 ^ index
      → sign_extend32 value index ≡ pos (value % 2 ^ (index + 1))
  pub of_neg :
      (value index : ℕ)
      → 2 ^ index ≤ value % 2 ^ (index + 1)
      → sign_extend32 value index ≡ negsuc (2 ^ (index + 1) - 1 - value % 2 ^ (index + 1))

module _ {sign_extend32 : (value index : ℕ) → ℤ} (extends : SignExtends sign_extend32) where
  axis_read : (v : ℤ) → Small v → sign_extend32 (low_byte v + 256 * high_byte v) 12 ≡ v
  axis_read (pos n) s = extends.of_pos _ 12 (omega arith) ∙ ap pos (omega arith)
  axis_read (negsuc n) s = extends.of_neg _ 12 (omega arith) ∙ ap negsuc (omega arith)

  -- If the chip has three values of 13 bits in its data registers, `adxl345_position_read` prints these
  -- values, in one transfer, and `adxl345_position_show` prints them afterwards.
  pub adxl345_position_read-adxl345_position_show :
      (a : AxisTriple) (ac : Adxl345)
      → Small a.x
      → Small a.y
      → Small a.z
      → let (ac', printed) = adxl345_position_read sign_extend32 (data_bytes a) ac in
        (printed ≡ a)
        × (adxl345_position_show ac' ≡ a)
        × (ac'.transfers ≡ Transfer.spi_write_then_read (readmb_cmd datax0) 6 ∷ ac.transfers)
  unfolding adxl345_position_read adxl345_position_show adxl345_get_triple adxl345_spi_read_block
  adxl345_position_read-adxl345_position_show a ac sx sy sz =
      simp (axis_read a.x sx, axis_read a.y sy, axis_read a.z sz) (refl, refl, refl)
