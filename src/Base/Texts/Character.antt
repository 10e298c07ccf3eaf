-- ===== src/Base/Texts/Character.antt =====
-- The bytes of one character are decoded to it.
use Prim.Native.Nat.{◌<◌, ◌≤◌, ℕ, suc, ◌+◌, ◌-◌, ◌*◌, ◌/◌, ◌%◌}
use mathlib.Core.Bool.{false}
use mathlib.Core.Option.{Option, none, some}
use mathlib.Core.List.{List, [], ◌∷◌, ◌++◌}
use mathlib.Core.Path.{◌≡◌, refl, ◌∙◌}
use mathlib.Core.Logic.{inl, inr}
use native.Mathlib.Omega.{arith}
use poly_firmware_build.Base.Tests.{Bool-cases, ltb→lt, lt→ltb, lt→ltb_false, le→leb, ltb}
use poly_firmware_build.Base.Texts.Utf8.{is_surrogate, utf8_char, continued, long_char, decode_char}

-- The code points of Unicode, surrogates among them.
abbrev pub IsPoint : ℕ → Type 0
IsPoint c = c < 0x110000

-- A continuation byte, the bits with its own, and what is behind it.
continued-cons :
    (count acc n b : ℕ) (bs : List ℕ)
    → 0x80 ≤ b
    → b < 0xc0
    → n ≡ acc * 64 + (b - 0x80)
    → continued (suc count) acc (b ∷ bs) ≡ continued count n bs
unfolding continued
continued-cons count acc n b bs above below e =
    rw (le→leb 0x80 b above, lt→ltb b 0xc0 below, e) refl

-- The bits that the continuation bytes give are those of a character of this length.
long_char-some :
    (count acc least c : ℕ) (bs rest : List ℕ)
    → continued count acc bs ≡ some (c, rest)
    → least ≤ c
    → c < 0x110000
    → is_surrogate c ≡ false
    → long_char count acc least bs ≡ some (c, rest)
unfolding long_char
long_char-some count acc least c bs rest h above below plain =
    rw
      (
        h,
        long_char,
        lt→ltb_false least c above,
        lt→ltb_false c 0x10ffff (omega (arith, below)),
        plain,
      )
      refl

-- What the first byte says of the length.
two_bytes :
    (b : ℕ) (bs : List ℕ) → 0xc0 ≤ b → b < 0xe0 → decode_char b bs ≡ long_char 1 (b - 0xc0) 0x80 bs
unfolding decode_char
two_bytes b bs above below =
    rw (lt→ltb_false 0x80 b (omega (arith, above)), lt→ltb_false 0xc0 b above, lt→ltb b 0xe0 below)
      refl

three_bytes :
    (b : ℕ) (bs : List ℕ) → 0xe0 ≤ b → b < 0xf0 → decode_char b bs ≡ long_char 2 (b - 0xe0) 0x800 bs
unfolding decode_char
three_bytes b bs above below =
    rw
      (
        lt→ltb_false 0x80 b (omega (arith, above)),
        lt→ltb_false 0xc0 b (omega (arith, above)),
        lt→ltb_false 0xe0 b above,
        lt→ltb b 0xf0 below,
      )
      refl

four_bytes :
    (b : ℕ) (bs : List ℕ)
    → 0xf0 ≤ b
    → b < 0xf8
    → decode_char b bs ≡ long_char 3 (b - 0xf0) 0x10000 bs
unfolding decode_char
four_bytes b bs above below =
    rw
      (
        lt→ltb_false 0x80 b (omega (arith, above)),
        lt→ltb_false 0xc0 b (omega (arith, above)),
        lt→ltb_false 0xe0 b (omega (arith, above)),
        lt→ltb_false 0xf0 b above,
        lt→ltb b 0xf8 below,
      )
      refl

-- The bytes of a character, in front of any others, are decoded to it.
abbrev pub DecodesTo : ℕ → Option (List ℕ) → Type 0
DecodesTo c none = Unit
DecodesTo c (some []) = ⊥
DecodesTo c (some (x ∷ xs)) = (rest : List ℕ) → decode_char x (xs ++ rest) ≡ some (c, rest)

decode-one : (c : ℕ) → c < 0x80 → DecodesTo c (some (c ∷ []))
unfolding decode_char
decode-one c below rest = rw (lt→ltb c 0x80 below) refl

decode-two :
    (c : ℕ) → 0x80 ≤ c → c < 0x800 → DecodesTo c (some ((0xc0 + c / 64) ∷ (0x80 + c % 64) ∷ []))
unfolding continued
decode-two c above below rest =
    let b1 = 0xc0 + c / 64 in
    let b2 = 0x80 + c % 64 in
    two_bytes b1 (b2 ∷ rest) (omega arith) (omega arith)
    ∙ long_char-some 1 (b1 - 0xc0) 0x80 c (b2 ∷ rest) rest
        (continued-cons 0 (b1 - 0xc0) c b2 rest (omega arith) (omega arith) (omega arith)) above
        (omega arith) (ground arith)

decode-three :
    (c : ℕ)
    → 0x800 ≤ c
    → c < 0x10000
    → is_surrogate c ≡ false
    → DecodesTo c (some ((0xe0 + c / 4096) ∷ (0x80 + c / 64 % 64) ∷ (0x80 + c % 64) ∷ []))
unfolding continued
decode-three c above below plain rest =
    let b1 = 0xe0 + c / 4096 in
    let b2 = 0x80 + c / 64 % 64 in
    let b3 = 0x80 + c % 64 in
    let tail = b2 ∷ b3 ∷ rest in
    three_bytes b1 tail (omega arith) (omega arith)
    ∙ long_char-some 2 (b1 - 0xe0) 0x800 c tail rest
        (continued-cons 1 (b1 - 0xe0) (c / 64) b2 (b3 ∷ rest) (omega arith) (omega arith)
            (omega arith)
          ∙ continued-cons 0 (c / 64) c b3 rest (omega arith) (omega arith) (omega arith))
        above (omega arith) plain

decode-four :
    (c : ℕ)
    → 0x10000 ≤ c
    → c < 0x110000
    → DecodesTo c (
        some (
          (0xf0 + c / 262144)
          ∷ (0x80 + c / 4096 % 64)
          ∷ (0x80 + c / 64 % 64)
          ∷ (0x80 + c % 64)
          ∷ []))
unfolding continued
decode-four c above below rest =
    let b1 = 0xf0 + c / 262144 in
    let b2 = 0x80 + c / 4096 % 64 in
    let b3 = 0x80 + c / 64 % 64 in
    let b4 = 0x80 + c % 64 in
    let tail = b2 ∷ b3 ∷ b4 ∷ rest in
    four_bytes b1 tail (omega arith) (omega arith)
    ∙ long_char-some 3 (b1 - 0xf0) 0x10000 c tail rest
        (continued-cons 2 (b1 - 0xf0) (c / 4096) b2 (b3 ∷ b4 ∷ rest) (omega arith) (omega arith)
            (omega arith)
          ∙ continued-cons 1 (c / 4096) (c / 64) b3 (b4 ∷ rest) (omega arith) (omega arith)
              (omega arith)
          ∙ continued-cons 0 (c / 64) c b4 rest (omega arith) (omega arith) (omega arith))
        above below (ground arith)

pub utf8_char-DecodesTo : (c : ℕ) → IsPoint c → DecodesTo c (utf8_char c)
utf8_char-DecodesTo c h = elim (Bool-cases (ltb c 0x80)) [
  | inl one ↦ rw one (decode-one c (ltb→lt c 0x80 one))
  | inr more ↦ elim (Bool-cases (ltb c 0x800)) [
    | inl two ↦ rw (more, two) (decode-two c (ground arith) (ltb→lt c 0x800 two))
    | inr long ↦
        rw (more, long)
          (elim (Bool-cases (is_surrogate c)) [
            | inl half ↦ rw half tt
            | inr plain ↦ rw plain (elim (Bool-cases (ltb c 0x10000)) [
              | inl three ↦ rw three (decode-three c (ground arith) (ltb→lt c 0x10000 three) plain)
              | inr four ↦ rw four (decode-four c (ground arith) h)
            ])
          ])
  ]
]
