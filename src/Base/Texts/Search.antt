-- ===== src/Base/Texts/Search.antt =====
-- `in` and `partition` with a separator of several bytes.
use Prim.Native.Nat.{ℕ, ◌≤◌}
use mathlib.Core.Path.{◌≡◌, refl, ap, ◌∙◌}
use mathlib.Core.Logic.{◌⊎◌, inl, inr}
use mathlib.Core.Bool.{Bool, true, false, ◌&&◌, ◌||◌}
use mathlib.Core.Option
use mathlib.Core.Option.{Option, none, some}
use mathlib.Core.List.{append-nil, List, [], ◌∷◌, ◌++◌}
use native.Mathlib.Omega.{arith}
use poly_firmware_build.Base.Tests.{◌==◌, if◌then◌else◌, Bool-cases, Option-cases}
use poly_firmware_build.Base.Lists.{length, drop, drop-append_le}

-- `xs.startswith(sub)`
unfoldable pub starts_with : List ℕ → List ℕ → Bool
starts_with [] xs = true
starts_with (c ∷ cs) [] = false
starts_with (c ∷ cs) (x ∷ xs) = let rest = starts_with cs xs in c == x && rest

-- `sub in xs`
unfoldable pub occurs : List ℕ → List ℕ → Bool
occurs sub [] = starts_with sub []
occurs sub (x ∷ xs) = let later = occurs sub xs in starts_with sub (x ∷ xs) || later

abbrev before : ℕ → List ℕ × List ℕ → List ℕ × List ℕ
before x (head, tail) = (x ∷ head, tail)

-- `xs.partition(sep)` without the separator, and `none` where it does not occur.
unfoldable pub partition : List ℕ → List ℕ → Option (List ℕ × List ℕ)
partition sep [] = if starts_with sep [] then some ([], []) else none
partition sep (x ∷ xs) =
    let later = partition sep xs in
    if starts_with sep (x ∷ xs)
    then some ([], drop (length sep) (x ∷ xs))
    else Option.map (before x) later

-- Where the separator occurs, `partition` finds it.
pub occurs-partition :
    (sep xs : List ℕ)
    → ((head tail : List ℕ) × (partition sep xs ≡ some (head, tail)) × (occurs sep xs ≡ true))
      ⊎ ((partition sep xs ≡ none) × (occurs sep xs ≡ false))
unfolding partition occurs
occurs-partition sep [] = elim (Bool-cases (starts_with sep [])) [
  | inl t ↦ inl ([], [], rw t, t)
  | inr f ↦ inr (rw f, f)
]
occurs-partition sep (x ∷ xs) = elim (Bool-cases (starts_with sep (x ∷ xs))) [
  | inl t ↦ inl ([], drop (length sep) (x ∷ xs), rw t, rw t)
  | inr f ↦ elim (occurs-partition sep xs) [
    | inl (head, tail, e, o) ↦ inl (x ∷ head, tail, rw (f, e, partition), rw (f, o))
    | inr (e, o) ↦ inr (rw (f, e, partition), rw (f, o))
  ]
]

starts_with-length : (sub xs : List ℕ) → starts_with sub xs ≡ true → length sub ≤ length xs
unfolding starts_with
starts_with-length [] xs h = omega arith
starts_with-length (c ∷ cs) [] h = ground arith
starts_with-length (c ∷ cs) (x ∷ xs) h = ground (arith, starts_with-length cs xs)

starts_with-append :
    (sub xs ys : List ℕ) → length sub ≤ length xs → starts_with sub (xs ++ ys) ≡ starts_with sub xs
unfolding starts_with
starts_with-append [] xs ys h = refl
starts_with-append (c ∷ cs) [] ys h = absurd (omega arith)
starts_with-append (c ∷ cs) (x ∷ xs) ys h =
    ap (λ b. c == x && b) (starts_with-append cs xs ys (omega arith))

partition-length :
    (sep xs head tail : List ℕ) → partition sep xs ≡ some (head, tail) → length sep ≤ length xs
unfolding partition
partition-length sep [] head tail e = elim (Bool-cases (starts_with sep [])) [
  | inl t ↦ starts_with-length sep [] t
  | inr f ↦ ground (arith, f)
]
partition-length sep (x ∷ xs) head tail e = elim (Bool-cases (starts_with sep (x ∷ xs))) [
  | inl t ↦ starts_with-length sep (x ∷ xs) t
  | inr f ↦ elim (Option-cases (partition sep xs)) [
    | inl n ↦ ground (arith, f, n)
    | inr ((h, t), found) ↦ omega (arith, partition-length sep xs h t found)
  ]
]

abbrev behind : List ℕ → List ℕ × List ℕ → List ℕ × List ℕ
behind ys (head, tail) = (head, tail ++ ys)

-- The first occurrence stays the first when more comes behind it.
pub partition-append :
    (sep xs ys head tail : List ℕ)
    → partition sep xs ≡ some (head, tail)
    → partition sep (xs ++ ys) ≡ some (head, tail ++ ys)
unfolding partition
partition-append [] [] [] head tail e = unfold starts_with in rw (append-nil tail) e
partition-append [] [] (y ∷ ys) head tail e = unfold starts_with drop in ground arith
partition-append (c ∷ cs) [] ys head tail e = absurd (unfold starts_with in ground arith)
partition-append sep (x ∷ xs) ys head tail e = elim (Bool-cases (starts_with sep (x ∷ xs))) [
  | inl t ↦
      let fits = starts_with-length sep (x ∷ xs) t in
      let still : starts_with sep (x ∷ (xs ++ ys)) ≡ true =
        starts_with-append sep (x ∷ xs) ys fits ∙ t in
      let found : some ([], drop (length sep) (x ∷ xs)) ≡ some (head, tail) = ground (arith, t) in
      rw still (
        ap (λ l. some ([], l)) (drop-append_le (length sep) (x ∷ xs) ys fits)
        ∙ ap (Option.map (behind ys)) found)
  | inr f ↦ elim (Option-cases (partition sep xs)) [
    | inl n ↦ absurd (ground (arith, f, n))
    | inr ((h, l), later) ↦
        let fits = partition-length sep xs h l later in
        let still : starts_with sep (x ∷ (xs ++ ys)) ≡ false =
          starts_with-append sep (x ∷ xs) ys (omega arith) ∙ f in
        let found : some (x ∷ h, l) ≡ some (head, tail) = ground (arith, f, later) in
        rw (still, partition-append sep xs ys h l later, partition)
          (ap (Option.map (behind ys)) found)
  ]
]

-- Appending keeps an occurrence.
pub occurs-append_front : (sub p b : List ℕ) → occurs sub b ≡ true → occurs sub (p ++ b) ≡ true
unfolding occurs
occurs-append_front sub [] b h = h
occurs-append_front sub (x ∷ p) b h = ground (arith, occurs-append_front sub p b h)

starts_with-append_true :
    (sub xs ys : List ℕ) → starts_with sub xs ≡ true → starts_with sub (xs ++ ys) ≡ true
unfolding starts_with
starts_with-append_true [] xs ys h = refl
starts_with-append_true (c ∷ cs) [] ys h = ground arith
starts_with-append_true (c ∷ cs) (x ∷ xs) ys h = ground (arith, starts_with-append_true cs xs ys)

pub occurs-append_back : (sub b ys : List ℕ) → occurs sub b ≡ true → occurs sub (b ++ ys) ≡ true
unfolding occurs
occurs-append_back sub [] ys h = at_end ys
  where
    at_end : (ys : List ℕ) → occurs sub ys ≡ true
    at_end [] = h
    at_end (y ∷ ys) = ground (arith, starts_with-append_true sub [] (y ∷ ys))
occurs-append_back sub (x ∷ b) ys h =
    ground (arith, starts_with-append_true sub (x ∷ b) ys, occurs-append_back sub b ys)
