-- ===== src/Initramfs/Hex.antt =====
-- Reading back the numbers that `%08X` writes.
use native.Mathlib.Nat.{pow-suc}
use poly_firmware_build.Base.{
  ℕ, zero, suc, ◌+◌, ◌-◌, ◌*◌, ◌/◌, ◌%◌, ◌^◌, ◌<◌, ◌≡◌, ◌∙◌, ap, refl, List, [], ◌∷◌, ◌++◌, arith,
  if◌then◌else◌, ltb, lt→ltb, Bytes, length, length-append, append_assoc, take, drop,
  take-length_append, drop-length_append, hex8, hex_onto, hex_digit, All,
}
use poly_firmware_build.Initramfs.{hex_fields}

abbrev digit_value : ℕ → ℕ
digit_value c = if ltb c b'A' then c - b'0' else c - b'A' + 10

-- The number that hexadecimal digits write, behind `acc`.
unfoldable pub of_hex : ℕ → Bytes → ℕ
of_hex acc [] = acc
of_hex acc (c ∷ cs) = of_hex (acc * 16 + digit_value c) cs

-- `n` numbers of eight digits each.
unfoldable pub read_fields : ℕ → Bytes → List ℕ
read_fields zero b = []
read_fields (suc n) b = of_hex 0 (take 8 b) ∷ read_fields n (drop 8 b)

digit_value-hex_digit : (d : ℕ) → d < 16 → digit_value (hex_digit b'A' d) ≡ d
unfolding hex_digit
digit_value-hex_digit d h = ground arith

of_hex-hex_onto :
    (w n acc : ℕ) (rest : Bytes)
    → n < 16 ^ w
    → of_hex acc (hex_onto b'A' w n rest) ≡ of_hex (acc * 16 ^ w + n) rest
unfolding of_hex hex_onto
of_hex-hex_onto zero n acc rest h = ap (λ k. of_hex k rest) (omega arith)
of_hex-hex_onto (suc w) n acc rest h =
    let b : n / 16 < 16 ^ w = omega (arith, pow-suc 16 w) in
    let d = hex_digit b'A' (n % 16) in
    of_hex-hex_onto w (n / 16) acc (d ∷ rest) b
    ∙ ap (λ k. of_hex k rest)
        (omega (
          arith,
          ap (λ (t : ℕ). acc * t) (pow-suc 16 w),
          digit_value-hex_digit (n % 16) (omega arith),
        ))

length-hex_onto : (w n : ℕ) (rest : Bytes) → length (hex_onto b'A' w n rest) ≡ w + length rest
unfolding hex_onto
length-hex_onto zero n rest = omega arith
length-hex_onto (suc w) n rest =
    omega (arith, length-hex_onto w (n / 16) (hex_digit b'A' (n % 16) ∷ rest))

module _ (n : ℕ) (h : n < 2 ^ 32) where
  pub of_hex-hex8 : of_hex 0 (hex8 n) ≡ n
  unfolding hex8
  of_hex-hex8 =
      rw (lt→ltb n (2 ^ 32) h) (of_hex-hex_onto 8 n 0 [] h ∙ (unfold of_hex in omega arith))

  pub length-hex8 : length (hex8 n) ≡ 8
  unfolding hex8
  length-hex8 = rw (lt→ltb n (2 ^ 32) h) (length-hex_onto 8 n [])

pub length-hex_fields :
    (ns : List ℕ) → All (λ n. n < 2 ^ 32) ns → length (hex_fields ns) ≡ length ns * 8
unfolding hex_fields
length-hex_fields [] fit = refl
length-hex_fields (n ∷ ns) (h, fit) =
    omega (arith, length-append (hex8 n) (hex_fields ns), length-hex8 n h, length-hex_fields ns fit)

pub read_fields-hex_fields :
    (ns : List ℕ) (rest : Bytes)
    → All (λ n. n < 2 ^ 32) ns
    → read_fields (length ns) (hex_fields ns ++ rest) ≡ ns
unfolding read_fields hex_fields
read_fields-hex_fields [] rest fit = refl
read_fields-hex_fields (n ∷ ns) rest (h, fit) = rw (
  append_assoc (hex8 n) (hex_fields ns) rest,
  take-length_append 8 (hex8 n) (hex_fields ns ++ rest) (length-hex8 n h),
  drop-length_append 8 (hex8 n) (hex_fields ns ++ rest) (length-hex8 n h),
  of_hex-hex8 n h,
  read_fields-hex_fields ns rest fit,
)
