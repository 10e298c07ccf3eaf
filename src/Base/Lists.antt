-- ===== src/Base/Lists.antt =====
-- Lists measured and indexed by native numbers, under the library's names. `take`, `drop` and
-- `replicate` stay shut, since the tools use them at sizes such as 4096.
use Prim.Native.Nat.{ℕ, zero, suc, ◌+◌, ◌-◌, ◌≤◌, min}
use Prim.Native.Nat.add
use mathlib.Core.Path.{◌≡◌, refl, sym, ap, ◌∙◌}
use mathlib.Core.List.{append_assoc, List, [], ◌∷◌, ◌++◌}
use native.Mathlib.Omega.{arith}

-- A predicate on every item computes to tuples.
abbrev pub All {ℓ κ} : {A : Type ℓ} → (A → Type κ) → List A → Type κ
All P [] = Unit
All P (x ∷ xs) = P x × All P xs

module _ {ℓ} {A : Type ℓ} where
  abbrev pub length : List A → ℕ
  length [] = 0
  length (x ∷ xs) = suc (length xs)

  unfoldable pub take : ℕ → List A → List A
  take zero xs = []
  take (suc n) [] = []
  take (suc n) (x ∷ xs) = x ∷ take n xs

  unfoldable pub drop : ℕ → List A → List A
  drop zero xs = xs
  drop (suc n) [] = []
  drop (suc n) (x ∷ xs) = drop n xs

  unfoldable pub replicate : ℕ → A → List A
  replicate zero a = []
  replicate (suc n) a = a ∷ replicate n a

module _ {ℓ} {A : Type ℓ} where
  -- Python's `xs[a:b]` for bounds that are not negative.
  abbrev pub slice : List A → ℕ → ℕ → List A
  slice xs a b = drop a (take b xs)

  -- Python's `xs.ljust(n, a)`.
  abbrev pub ljust : ℕ → A → List A → List A
  ljust n a xs = xs ++ replicate (n - length xs) a

  pub length-append : (xs ys : List A) → length (xs ++ ys) ≡ length xs + length ys
  length-append [] ys = omega arith
  length-append (x ∷ xs) ys = omega (arith, length-append xs ys)

  pub length-take : (n : ℕ) (xs : List A) → length (take n xs) ≡ min n (length xs)
  unfolding take
  length-take zero xs = omega arith
  length-take (suc n) [] = omega arith
  length-take (suc n) (x ∷ xs) = omega (arith, length-take n xs)

  pub length-drop : (n : ℕ) (xs : List A) → length (drop n xs) ≡ length xs - n
  unfolding drop
  length-drop zero xs = omega arith
  length-drop (suc n) [] = omega arith
  length-drop (suc n) (x ∷ xs) = omega (arith, length-drop n xs)

  pub length-replicate : (n : ℕ) (a : A) → length (replicate n a) ≡ n
  unfolding replicate
  length-replicate zero a = refl
  length-replicate (suc n) a = ap suc (length-replicate n a)

  pub length-ljust : (n : ℕ) (a : A) (xs : List A) → length xs ≤ n → length (ljust n a xs) ≡ n
  length-ljust n a xs h =
      omega
        (arith, length-append xs (replicate (n - length xs) a), length-replicate (n - length xs) a)

  pub take-append-drop : (n : ℕ) (xs : List A) → take n xs ++ drop n xs ≡ xs
  unfolding take drop
  take-append-drop zero xs = refl
  take-append-drop (suc n) [] = refl
  take-append-drop (suc n) (x ∷ xs) = ap (λ ys. x ∷ ys) (take-append-drop n xs)

  -- Cutting a list behind its first part gives the two parts back.
  pub take-length_append : (n : ℕ) (xs ys : List A) → length xs ≡ n → take n (xs ++ ys) ≡ xs
  unfolding take
  take-length_append zero [] ys e = refl
  take-length_append zero (x ∷ xs) ys e = absurd (omega arith)
  take-length_append (suc n) [] ys e = absurd (omega arith)
  take-length_append (suc n) (x ∷ xs) ys e =
      ap (λ zs. x ∷ zs) (take-length_append n xs ys (omega arith))

  pub drop-length_append : (n : ℕ) (xs ys : List A) → length xs ≡ n → drop n (xs ++ ys) ≡ ys
  unfolding drop
  drop-length_append zero [] ys e = refl
  drop-length_append zero (x ∷ xs) ys e = absurd (omega arith)
  drop-length_append (suc n) [] ys e = absurd (omega arith)
  drop-length_append (suc n) (x ∷ xs) ys e = drop-length_append n xs ys (omega arith)

  pub take_all : (n : ℕ) (xs : List A) → length xs ≤ n → take n xs ≡ xs
  unfolding take
  take_all zero [] h = refl
  take_all zero (x ∷ xs) h = absurd (omega arith)
  take_all (suc n) [] h = refl
  take_all (suc n) (x ∷ xs) h = ap (λ ys. x ∷ ys) (take_all n xs (omega arith))

  pub drop_all : (n : ℕ) (xs : List A) → length xs ≤ n → drop n xs ≡ []
  unfolding drop
  drop_all zero [] h = refl
  drop_all zero (x ∷ xs) h = absurd (omega arith)
  drop_all (suc n) [] h = refl
  drop_all (suc n) (x ∷ xs) h = drop_all n xs (omega arith)

  drop-nil : (n : ℕ) → drop {A = A} n [] ≡ []
  unfolding drop
  drop-nil zero = refl
  drop-nil (suc n) = refl

  pub drop-drop : (a b : ℕ) (xs : List A) → drop b (drop a xs) ≡ drop (a + b) xs
  unfolding drop
  drop-drop zero b xs = rw add.zero
  drop-drop (suc a) b [] = drop-nil b ∙ sym (drop-nil (suc a + b))
  drop-drop (suc a) b (x ∷ xs) = rw add.suc (drop-drop a b xs)

  -- A list cut in two places.
  pub drop_more :
      (a k : ℕ) (b xs ys : List A) → drop a b ≡ xs ++ ys → length xs ≡ k → drop (a + k) b ≡ ys
  drop_more a k b xs ys h size =
      sym (drop-drop a k b) ∙ ap (drop k) h ∙ drop-length_append k xs ys size

  pub take-add : (a b : ℕ) (xs : List A) → take (a + b) xs ≡ take a xs ++ take b (drop a xs)
  unfolding take drop
  take-add zero b xs = rw add.zero
  take-add (suc a) b [] = take-nil (suc a + b) ∙ sym (take-nil b)
    where
      take-nil : (n : ℕ) → take {A = A} n [] ≡ []
      take-nil zero = refl
      take-nil (suc n) = refl
  take-add (suc a) b (x ∷ xs) = rw add.suc (ap (λ ys. x ∷ ys) (take-add a b xs))

  pub take-take : (a b : ℕ) (xs : List A) → a ≤ b → take a (take b xs) ≡ take a xs
  unfolding take
  take-take zero b xs h = refl
  take-take (suc a) zero xs h = absurd (omega arith)
  take-take (suc a) (suc b) [] h = refl
  take-take (suc a) (suc b) (x ∷ xs) h = ap (λ ys. x ∷ ys) (take-take a b xs (omega arith))

  drop_split : (a b : ℕ) (xs : List A) → a ≤ b → drop a (take b xs) ++ drop b xs ≡ drop a xs
  unfolding take drop
  drop_split zero b xs h = take-append-drop b xs
  drop_split (suc a) zero xs h = absurd (omega arith)
  drop_split (suc a) (suc b) [] h = refl
  drop_split (suc a) (suc b) (x ∷ xs) h = drop_split a b xs (omega arith)

  pub take-append_le : (n : ℕ) (xs ys : List A) → n ≤ length xs → take n (xs ++ ys) ≡ take n xs
  unfolding take
  take-append_le zero xs ys h = refl
  take-append_le (suc n) [] ys h = absurd (omega arith)
  take-append_le (suc n) (x ∷ xs) ys h = ap (λ zs. x ∷ zs) (take-append_le n xs ys (omega arith))

  pub drop-append_le :
      (n : ℕ) (xs ys : List A) → n ≤ length xs → drop n (xs ++ ys) ≡ drop n xs ++ ys
  unfolding drop
  drop-append_le zero xs ys h = refl
  drop-append_le (suc n) [] ys h = absurd (omega arith)
  drop-append_le (suc n) (x ∷ xs) ys h = drop-append_le n xs ys (omega arith)

  pub slice-append_le :
      (a b : ℕ) (xs ys : List A) → b ≤ length xs → slice (xs ++ ys) a b ≡ slice xs a b
  slice-append_le a b xs ys h = ap (drop a) (take-append_le b xs ys h)

  pub slice_middle :
      (a b : ℕ) (xs ys zs : List A)
      → length xs ≡ a
      → a + length ys ≡ b
      → slice (xs ++ (ys ++ zs)) a b ≡ ys
  slice_middle a b xs ys zs start end =
      ap (λ l. drop a (take b l)) (sym (append_assoc xs ys zs))
      ∙ ap (drop a) (take-length_append b (xs ++ ys) zs (omega (arith, length-append xs ys)))
      ∙ drop-length_append a xs ys start

  -- Slices that meet are one slice.
  pub slice-append :
      (a b c : ℕ) (xs : List A) → a ≤ b → b ≤ c → slice xs a b ++ slice xs b c ≡ slice xs a c
  slice-append a b c xs h k =
      ap (λ ys. drop a ys ++ slice xs b c) (sym (take-take b c xs k)) ∙ drop_split a b (take c xs) h

  pub length-slice : (a b : ℕ) (xs : List A) → b ≤ length xs → length (slice xs a b) ≡ b - a
  length-slice a b xs h = omega (arith, length-drop a (take b xs), length-take b xs)

  pub slice_none : (a b : ℕ) (xs : List A) → b ≤ a → slice xs a b ≡ []
  slice_none a b xs h = drop_all a (take b xs) (omega (arith, length-take b xs))

  pub slice_all : (n : ℕ) (xs : List A) → length xs ≡ n → slice xs 0 n ≡ xs
  unfolding drop
  slice_all n xs h = take_all n xs (omega arith)

  pub replicate-add : (a b : ℕ) (x : A) → replicate (a + b) x ≡ replicate a x ++ replicate b x
  unfolding replicate
  replicate-add zero b x = rw add.zero
  replicate-add (suc a) b x = rw add.suc (ap (λ ys. x ∷ ys) (replicate-add a b x))
