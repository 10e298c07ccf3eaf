-- ===== src/Base/Texts/Decoded.antt =====
-- Decoding undoes encoding.
use Prim.Native.Nat.{◌≤◌, ℕ, zero, suc}
use mathlib.Core.Option
use mathlib.Core.Option.{Option, none, some}
use mathlib.Core.List.{List, [], ◌∷◌, ◌++◌}
use mathlib.Core.Path.{◌≡◌, refl, sym, ap, ◌∙◌}
use native.Mathlib.Omega.{arith}
use poly_firmware_build.Base.Lists.{All, length, length-append}
use poly_firmware_build.Base.Texts.Character.{IsPoint, DecodesTo, utf8_char-DecodesTo}
use poly_firmware_build.Base.Texts.Utf8.{utf8_char, utf8, utf8_decode_loop, utf8_decode}

-- A character in front of what is decoded.
decode_loop-cons :
    (c : ℕ) (cs p bs : List ℕ) (fuel : ℕ)
    → DecodesTo c (some p)
    → ((less : ℕ) → length bs ≤ less → utf8_decode_loop less bs ≡ some cs)
    → length (p ++ bs) ≤ fuel
    → utf8_decode_loop fuel (p ++ bs) ≡ some (c ∷ cs)
unfolding utf8_decode_loop
decode_loop-cons c cs [] bs fuel first rest enough = absurd first
decode_loop-cons c cs (x ∷ xs) bs zero first rest enough = absurd (omega (arith, enough))
decode_loop-cons c cs (x ∷ xs) bs (suc fuel) first rest enough =
    rw (first bs, utf8_decode_loop, rest fuel (omega (arith, enough, length-append xs bs))) refl

-- How a text is encoded: its first character, and then the others.
abbrev EncodedAs : ℕ → List ℕ → List ℕ → Type 0
EncodedAs c cs b =
    (p : List ℕ) × (bs : List ℕ) × (utf8_char c ≡ some p) × (utf8 cs ≡ some bs) × (b ≡ p ++ bs)

utf8-cons : (c : ℕ) (cs b : List ℕ) → utf8 (c ∷ cs) ≡ some b → EncodedAs c cs b
unfolding utf8
utf8-cons c cs b e = step (utf8_char c) (utf8 cs) refl refl e
  where
    step :
        (o rest : Option (List ℕ))
        → utf8_char c ≡ o
        → utf8 cs ≡ rest
        → elim o [ none ↦ none | some p ↦ Option.map (λ bs. p ++ bs) rest ] ≡ some b
        → EncodedAs c cs b
    step none rest h hs e = cc
    step (some p) none h hs e = cc
    step (some p) (some bs) h hs e = (p, bs, h, hs, cc)

utf8_decode_loop-utf8 :
    (t b : List ℕ) (fuel : ℕ)
    → All IsPoint t
    → utf8 t ≡ some b
    → length b ≤ fuel
    → utf8_decode_loop fuel b ≡ some t
unfolding utf8 utf8_decode_loop
utf8_decode_loop-utf8 [] b fuel h e enough =
    let none_there : [] ≡ b = cc in ap (utf8_decode_loop fuel) (sym none_there)
utf8_decode_loop-utf8 (c ∷ cs) b fuel (h, hs) e enough =
    let (p, bs, first, rest, whole) = utf8-cons c cs b e in
    ap (utf8_decode_loop fuel) whole
    ∙ decode_loop-cons c cs p bs fuel (rw first at (utf8_char-DecodesTo c h))
        (λ less k. utf8_decode_loop-utf8 cs bs less hs rest k)
        (omega (arith, enough, ap length whole))

-- Code points that can be encoded are decoded from their encoding.
pub utf8_decode-utf8 : (t b : List ℕ) → All IsPoint t → utf8 t ≡ some b → utf8_decode b ≡ some t
unfolding utf8_decode
utf8_decode-utf8 t b h e = utf8_decode_loop-utf8 t b (length b) h e (omega arith)
