-- ===== src/Base/Texts.antt =====
-- Bytes and texts as lists of numbers: a byte is below 256, a character is its code point. Here
-- are the parts of Python's `bytes` and `str` that the tools use.
mod Split
mod Search
mod Utf8
mod Character
mod Decoded
unfoldable pub use Split.*
unfoldable pub use Search.*
unfoldable pub use Utf8.*
pub use Character.{IsPoint}
pub use Decoded.*
use Prim.Native.Nat.{ℕ, zero, suc, ◌+◌, ◌-◌, ◌*◌, ◌/◌, ◌%◌, ◌^◌, ◌<◌}
use Prim.Native.Char.{code}
use Prim.Native.String.{String}
use mathlib.Core.Path.{◌≡◌, refl}
use mathlib.Core.Logic.{◌↔◌}
use mathlib.Core.Bool.{Bool, true, false, ◌&&◌}
use mathlib.Core.Option.{Option, none, some}
use mathlib.Core.List.{List, [], ◌∷◌, ◌++◌}
use native.Mathlib.Omega.{arith}
use poly_firmware_build.Base.Tests.{ltb, ◌==◌, if◌then◌else◌}
use poly_firmware_build.Base.Lists.{All, length, replicate}

abbrev pub Bytes : Type 0
Bytes = List ℕ

abbrev pub Text : Type 0
Text = List ℕ

-- The code points of a text, which are its bytes if it is ASCII.
abbrev pub codes : String → List ℕ
codes String.[] = []
codes (String.◌∷◌ c s) = code c ∷ codes s

abbrev pub IsByte : ℕ → Type 0
IsByte c = c < 256

abbrev pub IsAscii : ℕ → Type 0
IsAscii c = c < 128

-- `==` of two byte strings, or of two texts.
unfoldable pub text_eq : List ℕ → List ℕ → Bool
text_eq [] [] = true
text_eq (x ∷ xs) (y ∷ ys) = x == y && text_eq xs ys
text_eq _ _ = false

pub text_eq_iff : (xs ys : List ℕ) → (text_eq xs ys ≡ true) ↔ (xs ≡ ys)
unfolding text_eq
text_eq_iff (x ∷ xs) (y ∷ ys) = ground (arith, text_eq_iff xs ys)
text_eq_iff _ _ = ground arith

pub text_eq_refl : (xs : List ℕ) → text_eq xs xs ≡ true
text_eq_refl xs = (text_eq_iff xs xs).1 refl

-- `c in xs`.
unfoldable pub contains : ℕ → List ℕ → Bool
contains c [] = false
contains c (x ∷ xs) = let rest = contains c xs in if x == c then true else rest

unfoldable pub all_ascii : List ℕ → Bool
all_ascii [] = true
all_ascii (c ∷ cs) = ltb c 128 && all_ascii cs

pub all_ascii-All : (xs : List ℕ) → All IsAscii xs → all_ascii xs ≡ true
unfolding all_ascii
all_ascii-All [] h = refl
all_ascii-All (x ∷ xs) (h, hs) = ground (arith, all_ascii-All xs hs)

pub all_ascii_sound : (xs : List ℕ) → all_ascii xs ≡ true → All IsAscii xs
unfolding all_ascii
all_ascii_sound [] h = tt
all_ascii_sound (x ∷ xs) h = (ground arith, all_ascii_sound xs (ground arith))

pub contains-Lacks : (c : ℕ) (xs : List ℕ) → contains c xs ≡ false → Lacks c xs
unfolding contains
contains-Lacks c [] h = tt
contains-Lacks c (x ∷ xs) h = (ground arith, contains-Lacks c xs (ground arith))

-- `b.decode("ascii")` and `t.encode("ascii")`, the same test both ways; `none` is the exception.
unfoldable pub ascii_codec : List ℕ → Option (List ℕ)
unfolding all_ascii
ascii_codec xs = if all_ascii xs then some xs else none

-- `b.decode("latin-1")`: each byte is the code point of that number.
abbrev pub decode_latin1 : Bytes → Text
decode_latin1 b = b

-- One hexadecimal digit, with the letters at `letters`.
unfoldable pub hex_digit : ℕ → ℕ → ℕ
hex_digit letters d = if ltb d 10 then d + b'0' else d - 10 + letters

-- The last `width` hexadecimal digits of `n`, in front of `rest`.
unfoldable pub hex_onto : ℕ → ℕ → ℕ → Text → Text
hex_onto letters zero n rest = rest
hex_onto letters (suc width) n rest =
    hex_onto letters width (n / 16) (hex_digit letters (n % 16) ∷ rest)

-- How many hexadecimal digits `n` has, at least one and at most `most`.
hex_width : ℕ → ℕ → ℕ
hex_width zero n = 1
hex_width (suc most) n = let more = hex_width most (n / 16) in if ltb n 16 then 1 else more + 1

-- `f"{n:#x}"` for `n` below 2 ^ 64.
unfoldable pub hex : ℕ → Text
unfolding hex_onto hex_digit hex_width
hex n = b'0' ∷ b'x' ∷ hex_onto b'a' (hex_width 15 n) n []

-- `b"%08X" % n` for `n` below 2 ^ 256.
unfoldable pub hex8 : ℕ → Text
unfolding hex_width
hex8 n = hex_onto b'A' (if ltb n (2 ^ 32) then 8 else hex_width 63 n) n []

-- The decimal digits of `n` in front of `rest`, at most `most` of them.
decimal_onto : ℕ → ℕ → Text → Text
decimal_onto zero n rest = rest
decimal_onto (suc most) n rest =
    let more = decimal_onto most (n / 10) ((n % 10 + b'0') ∷ rest) in
    if ltb n 10 then (n + b'0') ∷ rest else more

-- `str(n)` for `n` below 10 ^ 40.
unfoldable pub decimal : ℕ → Text
unfolding decimal_onto
decimal n = decimal_onto 40 n []
