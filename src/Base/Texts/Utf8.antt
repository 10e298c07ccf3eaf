-- ===== src/Base/Texts/Utf8.antt =====
-- UTF-8, strict as Python's codec is: no surrogates, no overlong forms.
use Prim.Native.Nat.{ℕ, zero, suc, ◌+◌, ◌-◌, ◌*◌, ◌/◌, ◌%◌}
use mathlib.Core.Bool.{Bool, ◌&&◌, ◌||◌}
use mathlib.Core.Option
use mathlib.Core.Option.{Option, none, some}
use mathlib.Core.List.{List, [], ◌∷◌, ◌++◌}
use poly_firmware_build.Base.Tests.{ltb, leb, if◌then◌else◌}
use poly_firmware_build.Base.Lists.{length}

abbrev pub is_surrogate : ℕ → Bool
is_surrogate c = leb 0xd800 c && leb c 0xdfff

-- The bytes of one character.
abbrev pub utf8_char : ℕ → Option (List ℕ)
utf8_char c =
    if ltb c 0x80
    then some (c ∷ [])
    else if ltb c 0x800
    then some ((0xc0 + c / 64) ∷ (0x80 + c % 64) ∷ [])
    else if is_surrogate c
    then none
    else if ltb c 0x10000
    then some ((0xe0 + c / 4096) ∷ (0x80 + c / 64 % 64) ∷ (0x80 + c % 64) ∷ [])
    else some
        ((0xf0 + c / 262144) ∷ (0x80 + c / 4096 % 64) ∷ (0x80 + c / 64 % 64) ∷ (0x80 + c % 64) ∷ [])

-- `text.encode("utf-8")`
unfoldable pub utf8 : List ℕ → Option (List ℕ)
utf8 [] = some []
utf8 (c ∷ cs) =
    let rest = utf8 cs in
    elim (utf8_char c) [ none ↦ none | some b ↦ Option.map (λ bs. b ++ bs) rest ]

-- `count` continuation bytes behind the bits `acc`.
unfoldable pub continued : ℕ → ℕ → List ℕ → Option (ℕ × List ℕ)
continued zero acc bs = some (acc, bs)
continued (suc count) acc [] = none
continued (suc count) acc (b ∷ bs) =
    let rest = continued count (acc * 64 + (b - 0x80)) bs in
    if leb 0x80 b && ltb b 0xc0 then rest else none

-- A character of `count` continuation bytes, of at least `least`.
unfoldable pub long_char : ℕ → ℕ → ℕ → List ℕ → Option (ℕ × List ℕ)
long_char count acc least bs = elim (continued count acc bs) [
  | none ↦ none
  | some (c, rest) ↦
      if ltb c least || ltb 0x10ffff c || is_surrogate c then none else some (c, rest)
]

-- The first character, and what is behind it.
unfoldable pub decode_char : ℕ → List ℕ → Option (ℕ × List ℕ)
decode_char b bs =
    if ltb b 0x80
    then some (b, bs)
    else if ltb b 0xc0
    then none
    else if ltb b 0xe0
    then long_char 1 (b - 0xc0) 0x80 bs
    else if ltb b 0xf0
    then long_char 2 (b - 0xe0) 0x800 bs
    else if ltb b 0xf8
    then long_char 3 (b - 0xf0) 0x10000 bs
    else none

unfoldable pub utf8_decode_loop : ℕ → List ℕ → Option (List ℕ)
utf8_decode_loop fuel [] = some []
utf8_decode_loop zero (b ∷ bs) = none
utf8_decode_loop (suc fuel) (b ∷ bs) = elim (decode_char b bs) [
  | none ↦ none
  | some (c, rest) ↦ Option.map (λ cs. c ∷ cs) (utf8_decode_loop fuel rest)
]

-- `b.decode("utf-8")`; each character takes a byte at least, so the length is enough fuel.
unfoldable pub utf8_decode : List ℕ → Option (List ℕ)
unfolding utf8_decode_loop decode_char long_char continued
utf8_decode b = utf8_decode_loop (length b) b
