-- ===== src/Pack/RoundTrip.antt =====
-- Unpacking gives back the fields that were packed.
use native.Mathlib.Nat.{pow-suc}
use mathlib.Core.Option
use poly_firmware_build.Base.{
  ℕ, zero, suc, ◌+◌, ◌*◌, ◌/◌, ◌%◌, ◌^◌, ◌<◌, ◌≡◌, refl, ap, ap₂, ◌∙◌, Option, none, some, [], ◌∷◌,
  ◌++◌, arith, ltb, if◌then◌else◌, Bytes, IsByte, length, All, All-append, length-append, ==_refl,
  take-length_append, drop-length_append, lt→ltb,
}
use poly_firmware_build.Pack.{
  Endian, little, big, le_bytes, of_le, be_onto, of_be, uint, of_uint, Fields, widths, values,
  total, pack, unpack_fields, unpack,
}

length-le_bytes : (w n : ℕ) → length (le_bytes w n) ≡ w
unfolding le_bytes
length-le_bytes zero n = refl
length-le_bytes (suc w) n = ap suc (length-le_bytes w (n / 256))

length-be_onto : (w n : ℕ) (rest : Bytes) → length (be_onto w n rest) ≡ w + length rest
unfolding be_onto
length-be_onto zero n rest = omega arith
length-be_onto (suc w) n rest = omega (arith, length-be_onto w (n / 256) (n % 256 ∷ rest))

pub length-uint : (e : Endian) (w n : ℕ) → length (uint e w n) ≡ w
unfolding uint
length-uint little w n = length-le_bytes w n
length-uint big w n = omega (arith, length-be_onto w n [])

of_le-le_bytes : (w n : ℕ) → n < 256 ^ w → of_le (le_bytes w n) ≡ n
unfolding of_le le_bytes
of_le-le_bytes zero n h = omega arith
of_le-le_bytes (suc w) n h =
    let b : n / 256 < 256 ^ w = omega (arith, pow-suc 256 w) in
    omega (arith, of_le-le_bytes w (n / 256) b)

of_be-be_onto :
    (w n acc : ℕ) (rest : Bytes)
    → n < 256 ^ w
    → of_be acc (be_onto w n rest) ≡ of_be (acc * 256 ^ w + n) rest
unfolding of_be be_onto
of_be-be_onto zero n acc rest h = ap (λ k. of_be k rest) (omega arith)
of_be-be_onto (suc w) n acc rest h =
    let b : n / 256 < 256 ^ w = omega (arith, pow-suc 256 w) in
    of_be-be_onto w (n / 256) acc (n % 256 ∷ rest) b
    ∙ ap (λ k. of_be k rest) (omega (arith, ap (λ (t : ℕ). acc * t) (pow-suc 256 w)))

pub of_uint-uint : (e : Endian) (w n : ℕ) → n < 256 ^ w → of_uint e (uint e w n) ≡ n
unfolding of_uint uint
of_uint-uint little w n h = of_le-le_bytes w n h
of_uint-uint big w n h = of_be-be_onto w n 0 [] h ∙ (unfold of_be in omega arith)

le_bytes-IsByte : (w n : ℕ) → All IsByte (le_bytes w n)
unfolding le_bytes
le_bytes-IsByte zero n = tt
le_bytes-IsByte (suc w) n = (omega arith, le_bytes-IsByte w (n / 256))

be_onto-IsByte : (w n : ℕ) (rest : Bytes) → All IsByte rest → All IsByte (be_onto w n rest)
unfolding be_onto
be_onto-IsByte zero n rest h = h
be_onto-IsByte (suc w) n rest h = be_onto-IsByte w (n / 256) (n % 256 ∷ rest) (omega arith, h)

pub uint-IsByte : (e : Endian) (w n : ℕ) → All IsByte (uint e w n)
unfolding uint
uint-IsByte little w n = le_bytes-IsByte w n
uint-IsByte big w n = be_onto-IsByte w n [] tt

-- The fields are in range, the condition under which `struct.pack` returns.
abbrev pub Fit : Fields → Type 0
Fit = All (λ (w, n). n < 256 ^ w)

-- What `struct.pack` returns for fields in range.
abbrev pub packed : Endian → Fields → Bytes
packed e [] = []
packed e ((w, n) ∷ fs) = uint e w n ++ packed e fs

pub pack-Fit : (e : Endian) (fs : Fields) → Fit fs → pack e fs ≡ some (packed e fs)
unfolding pack
pack-Fit e [] h = refl
pack-Fit e ((w, n) ∷ fs) (b, h) = rw (lt→ltb n (256 ^ w) b, pack-Fit e fs h)

pub pack_sound :
    (e : Endian) (fs : Fields) {b : Bytes} → pack e fs ≡ some b → Fit fs × (b ≡ packed e fs)
unfolding pack
pack_sound e [] h = ground arith
pack_sound e ((w, n) ∷ fs) {b} h = step (pack e fs) (λ b' e'. pack_sound e fs {b = b'} e') h
  where
    step :
        (r : Option Bytes)
        → ((b' : Bytes) → r ≡ some b' → Fit fs × (b' ≡ packed e fs))
        → (if ltb n (256 ^ w) then Option.map (λ b'. uint e w n ++ b') r else none) ≡ some b
        → Fit ((w, n) ∷ fs) × (b ≡ packed e ((w, n) ∷ fs))
    step none ih p = ground arith
    step (some b') ih p = ground (arith, ih b' refl)

pub length-packed : (e : Endian) (fs : Fields) → length (packed e fs) ≡ total (widths fs)
length-packed e [] = refl
length-packed e ((w, n) ∷ fs) =
    omega (arith, length-append (uint e w n) (packed e fs), length-uint e w n, length-packed e fs)

pub packed-IsByte : (e : Endian) (fs : Fields) → All IsByte (packed e fs)
packed-IsByte e [] = tt
packed-IsByte e ((w, n) ∷ fs) =
    All-append IsByte (uint e w n) (packed e fs) (uint-IsByte e w n) (packed-IsByte e fs)

unpack_fields-packed :
    (e : Endian) (fs : Fields) → Fit fs → unpack_fields e (widths fs) (packed e fs) ≡ values fs
unfolding unpack_fields
unpack_fields-packed e [] h = refl
unpack_fields-packed e ((w, n) ∷ fs) (b, h) =
    ap₂ ◌∷◌
      (ap (of_uint e) (take-length_append w (uint e w n) (packed e fs) (length-uint e w n))
        ∙ of_uint-uint e w n b)
      (ap (unpack_fields e (widths fs))
          (drop-length_append w (uint e w n) (packed e fs) (length-uint e w n))
        ∙ unpack_fields-packed e fs h)

pub unpack-packed :
    (e : Endian) (fs : Fields) → Fit fs → unpack e (widths fs) (packed e fs) ≡ some (values fs)
unfolding unpack
unpack-packed e fs h = rw (length-packed e fs, ==_refl, unpack_fields-packed e fs h)
