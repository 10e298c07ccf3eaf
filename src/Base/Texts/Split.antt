-- ===== src/Base/Texts/Split.antt =====
-- `split`, `partition` and `join` by one separator.
use Prim.Native.Nat.{ℕ}
use mathlib.Core.Path.{◌≡◌, refl, sym, ap, ap₂, ◌∙◌}
use mathlib.Core.Logic.{◌≢◌, inl, inr}
use mathlib.Core.Option.{Option, none, some}
use mathlib.Core.Option
use mathlib.Core.List.{List, [], ◌∷◌, ◌++◌, append_assoc}
use native.Mathlib.Omega.{arith}
use poly_firmware_build.Base.Tests.{==_iff, ◌==◌, if◌then◌else◌, Bool-cases}
use poly_firmware_build.Base.Lists.{All}

-- Puts a byte in front of the first piece.
abbrev extend_first : ℕ → List (List ℕ) → List (List ℕ)
extend_first x [] = (x ∷ []) ∷ []
extend_first x (p ∷ ps) = (x ∷ p) ∷ ps

-- `xs.split(sep)`.
unfoldable pub split : ℕ → List ℕ → List (List ℕ)
split sep [] = [] ∷ []
split sep (x ∷ xs) = let rest = split sep xs in if x == sep then [] ∷ rest else extend_first x rest

abbrev prepend : ℕ → List ℕ × List ℕ → List ℕ × List ℕ
prepend x (k, v) = (x ∷ k, v)

-- `xs.split(sep, 1)` where `sep in xs`, and `none` where it is not.
unfoldable pub split_once : ℕ → List ℕ → Option (List ℕ × List ℕ)
split_once sep [] = none
split_once sep (x ∷ xs) =
    let rest = split_once sep xs in if x == sep then some ([], xs) else Option.map (prepend x) rest

-- `sep.join(parts)`.
unfoldable pub join : ℕ → List (List ℕ) → List ℕ
join sep [] = []
join sep (p ∷ []) = p
join sep (p ∷ q ∷ ps) = p ++ sep ∷ join sep (q ∷ ps)

abbrev pub Lacks : ℕ → List ℕ → Type 0
Lacks sep xs = All (λ c. c ≢ sep) xs

pub split-piece :
    (sep : ℕ) (p rest : List ℕ) → Lacks sep p → split sep (p ++ sep ∷ rest) ≡ p ∷ split sep rest
unfolding split
split-piece sep [] rest h = ground arith
split-piece sep (x ∷ p) rest (hx, h) = ground (arith, split-piece sep p rest h)

pub split_once-pair :
    (sep : ℕ) (k v : List ℕ) → Lacks sep k → split_once sep (k ++ sep ∷ v) ≡ some (k, v)
unfolding split_once
split_once-pair sep [] v h = ground arith
split_once-pair sep (x ∷ k) v (hx, h) = ground (arith, split_once-pair sep k v h)

-- What holds of every byte holds of every byte of the pieces.
pub split-All : (P : ℕ → Type 0) (sep : ℕ) (xs : List ℕ) → All P xs → All (All P) (split sep xs)
unfolding split
split-All P sep [] h = (tt, tt)
split-All P sep (x ∷ xs) (h, hs) = step (split sep xs) (split-All P sep xs hs)
  where
    step :
        (ps : List (List ℕ))
        → All (All P) ps
        → All (All P) (if x == sep then [] ∷ ps else extend_first x ps)
    step [] k = elim (Bool-cases (x == sep)) [ inl e ↦ rw e (tt, k) | inr e ↦ rw e ((h, tt), tt) ]
    step (p ∷ ps) k = elim (Bool-cases (x == sep)) [
      | inl e ↦ rw e (tt, k)
      | inr e ↦ rw e ((h, k.0), k.1)
    ]

-- Every piece of a split lacks the separator.
pub split-Lacks : (sep : ℕ) (xs : List ℕ) → All (Lacks sep) (split sep xs)
unfolding split
split-Lacks sep [] = (tt, tt)
split-Lacks sep (x ∷ xs) = step (split sep xs) (split-Lacks sep xs)
  where
    step :
        (ps : List (List ℕ))
        → All (Lacks sep) ps
        → All (Lacks sep) (if x == sep then [] ∷ ps else extend_first x ps)
    step [] h = elim (Bool-cases (x == sep)) [
      | inl e ↦ rw e (tt, tt)
      | inr e ↦ rw e ((ground arith, tt), tt)
    ]
    step (p ∷ ps) h = elim (Bool-cases (x == sep)) [
      | inl e ↦ rw e (tt, h)
      | inr e ↦ rw e ((ground arith, h.0), h.1)
    ]

-- What `split_once` returns are the parts around the first separator.
pub split_once_sound :
    (sep : ℕ) (xs : List ℕ) {k v : List ℕ}
    → split_once sep xs ≡ some (k, v)
    → (xs ≡ k ++ sep ∷ v) × Lacks sep k
unfolding split_once
split_once_sound sep [] h = cc
split_once_sound sep (x ∷ xs) {k} {v} h =
    step (split_once sep xs) (λ k' v' e. split_once_sound sep xs {k = k'} {v = v'} e) h
  where
    step :
        (r : Option (List ℕ × List ℕ))
        → ((k' v' : List ℕ) → r ≡ some (k', v') → (xs ≡ k' ++ sep ∷ v') × Lacks sep k')
        → (if x == sep then some ([], xs) else Option.map (prepend x) r) ≡ some (k, v)
        → (x ∷ xs ≡ k ++ sep ∷ v) × Lacks sep k
    step none ih e = ground arith
    step (some (k', v')) ih e = ground (arith, ih k' v')

-- There is always a piece.
abbrev IsFilled : List (List ℕ) → Type 0
IsFilled [] = ⊥
IsFilled (p ∷ ps) = Unit

split-IsFilled : (sep : ℕ) (xs : List ℕ) → IsFilled (split sep xs)
unfolding split
split-IsFilled sep [] = tt
split-IsFilled sep (x ∷ xs) = step (split sep xs)
  where
    step : (ps : List (List ℕ)) → IsFilled (if x == sep then [] ∷ ps else extend_first x ps)
    step [] = elim (Bool-cases (x == sep)) [ inl e ↦ rw e tt | inr e ↦ rw e tt ]
    step (p ∷ ps) = elim (Bool-cases (x == sep)) [ inl e ↦ rw e tt | inr e ↦ rw e tt ]

join-extend_first :
    (sep x : ℕ) (ps : List (List ℕ)) → join sep (extend_first x ps) ≡ x ∷ join sep ps
unfolding join
join-extend_first sep x [] = refl
join-extend_first sep x (p ∷ []) = refl
join-extend_first sep x (p ∷ q ∷ ps) = refl

-- Joining undoes splitting.
pub join-split : (sep : ℕ) (xs : List ℕ) → join sep (split sep xs) ≡ xs
unfolding split join
join-split sep [] = refl
join-split sep (x ∷ xs) = step (split sep xs) (split-IsFilled sep xs) (join-split sep xs)
  where
    step :
        (ps : List (List ℕ))
        → IsFilled ps
        → join sep ps ≡ xs
        → join sep (if x == sep then [] ∷ ps else extend_first x ps) ≡ x ∷ xs
    step [] filled e = absurd filled
    step (p ∷ ps) filled e = elim (Bool-cases (x == sep)) [
      | inl same ↦ rw same (ap₂ ◌∷◌ (sym ((==_iff x sep).0 same)) e)
      | inr differ ↦ rw differ (join-extend_first sep x (p ∷ ps) ∙ ap (λ t. x ∷ t) e)
    ]

-- A separator at the end leaves an empty piece behind it.
pub split-end : (sep : ℕ) (xs : List ℕ) → split sep (xs ++ sep ∷ []) ≡ split sep xs ++ [] ∷ []
unfolding split
split-end sep [] = split-piece sep [] [] tt
split-end sep (x ∷ xs) =
    step (split sep xs) (split sep (xs ++ sep ∷ [])) (split-IsFilled sep xs) (split-end sep xs)
  where
    step :
        (ps qs : List (List ℕ))
        → IsFilled ps
        → qs ≡ ps ++ [] ∷ []
        → (if x == sep then [] ∷ qs else extend_first x qs)
          ≡ (if x == sep then [] ∷ ps else extend_first x ps) ++ [] ∷ []
    step [] qs filled e = absurd filled
    step (p ∷ ps) qs filled e = elim (Bool-cases (x == sep)) [
      | inl same ↦ rw same (ap (λ t. [] ∷ t) e)
      | inr differ ↦ rw differ (ap (extend_first x) e)
    ]

-- Joined pieces with two separators behind them: the split has the pieces, then an empty one.
pub split-join :
    (sep : ℕ) (ps : List (List ℕ)) (pad : List ℕ)
    → All (Lacks sep) ps
    → (rest : List (List ℕ)) × (split sep (join sep ps ++ sep ∷ sep ∷ pad) ≡ ps ++ [] ∷ rest)
unfolding join
split-join sep [] pad h = (_, split-piece sep [] (sep ∷ pad) tt)
split-join sep (p ∷ []) pad (h, _) =
    (split sep pad, split-piece sep p (sep ∷ pad) h ∙ ap (λ ps. p ∷ ps) (split-piece sep [] pad tt))
split-join sep (p ∷ q ∷ ps) pad (h, hs) =
    let (rest, e) = split-join sep (q ∷ ps) pad hs in
    (
      rest,
      ap (split sep) (append_assoc p (sep ∷ join sep (q ∷ ps)) (sep ∷ sep ∷ pad))
          ∙ split-piece sep p _ h
          ∙ ap (λ qs. p ∷ qs) e,
    )
