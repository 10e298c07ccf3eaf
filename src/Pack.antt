-- ===== src/Pack.antt =====
-- Python's `struct.pack` and `struct.unpack` of unsigned fields without padding (the formats `<`,
-- `>` and `!`), and the `crc32` of zlib. A format is the list of the fields' widths in bytes: `H`
-- is 2, `I` is 4, `Q` is 8.
pub mod RoundTrip
use mathlib.Core.Option
use poly_firmware_build.Base.{
  ℕ, zero, suc, ◌+◌, ◌*◌, ◌/◌, ◌%◌, ◌^◌, bit_xor, Bool, Option, none, some, List, [], ◌∷◌, ◌++◌,
  ltb, ◌==◌, if◌then◌else◌, Bytes, length, take, drop,
}

pub data Endian : Type 0 where
  little big : Endian

-- The `w` low bytes of `n`, the lowest first.
le_bytes : ℕ → ℕ → Bytes
le_bytes zero n = []
le_bytes (suc w) n = n % 256 ∷ le_bytes w (n / 256)

of_le : Bytes → ℕ
of_le [] = 0
of_le (b ∷ bs) = b + 256 * of_le bs

-- The same with the highest byte first, in front of `rest`.
be_onto : ℕ → ℕ → Bytes → Bytes
be_onto zero n rest = rest
be_onto (suc w) n rest = be_onto w (n / 256) (n % 256 ∷ rest)

of_be : ℕ → Bytes → ℕ
of_be acc [] = acc
of_be acc (b ∷ bs) = of_be (acc * 256 + b) bs

unfoldable pub uint : Endian → ℕ → ℕ → Bytes
unfolding le_bytes be_onto
uint little w n = le_bytes w n
uint big w n = be_onto w n []

unfoldable pub of_uint : Endian → Bytes → ℕ
unfolding of_le of_be
of_uint little b = of_le b
of_uint big b = of_be 0 b

abbrev pub Fields : Type 0
Fields = List (ℕ × ℕ)

abbrev pub widths : Fields → List ℕ
widths [] = []
widths ((w, n) ∷ fs) = w ∷ widths fs

abbrev pub values : Fields → List ℕ
values [] = []
values ((w, n) ∷ fs) = n ∷ values fs

abbrev pub total : List ℕ → ℕ
total [] = 0
total (w ∷ ws) = w + total ws

-- `struct.pack`, on pairs of a width and a value; `none` is `struct.error`, for a value out of range.
unfoldable pub pack : Endian → Fields → Option Bytes
pack e [] = some []
pack e ((w, n) ∷ fs) =
    let rest = pack e fs in if ltb n (256 ^ w) then Option.map (λ b. uint e w n ++ b) rest else none

unfoldable pub unpack_fields : Endian → List ℕ → Bytes → List ℕ
unpack_fields e [] b = []
unpack_fields e (w ∷ ws) b = of_uint e (take w b) ∷ unpack_fields e ws (drop w b)

-- `struct.unpack`; `none` is `struct.error`, for another number of bytes than the format has.
unfoldable pub unpack : Endian → List ℕ → Bytes → Option (List ℕ)
unfolding unpack_fields
unpack e ws b = if length b == total ws then some (unpack_fields e ws b) else none

-- CRC-32 as zlib computes it, with the reflected polynomial 0xEDB88320, one bit at a time.
crc_bits : ℕ → ℕ → ℕ
crc_bits zero c = c
crc_bits (suc k) c = crc_bits k (if c % 2 == 1 then bit_xor (c / 2) 0xedb88320 else c / 2)

crc_bytes : ℕ → Bytes → ℕ
crc_bytes c [] = c
crc_bytes c (b ∷ bs) = crc_bytes (crc_bits 8 (bit_xor c b)) bs

unfoldable pub crc32 : Bytes → ℕ
unfolding crc_bytes crc_bits
crc32 b = bit_xor (crc_bytes 0xffffffff b) 0xffffffff
