-- ===== src/Base/Fits.antt =====
-- Facts about `All` and about texts that several tools share.
use Prim.Native.Nat.{ℕ, zero, suc}
use mathlib.Core.List.{List, [], ◌∷◌, ◌++◌}
use poly_firmware_build.Base.Lists.{All, replicate, take, drop}

module _ {ℓ κ} {A : Type ℓ} (P : A → Type κ) where
  pub All-append : (xs ys : List A) → All P xs → All P ys → All P (xs ++ ys)
  All-append [] ys h k = k
  All-append (x ∷ xs) ys (h, hs) k = (h, All-append xs ys hs k)

  pub All-of_append : (xs ys : List A) → All P (xs ++ ys) → All P xs × All P ys
  All-of_append [] ys h = (tt, h)
  All-of_append (x ∷ xs) ys (h, hs) = let (a, b) = All-of_append xs ys hs in ((h, a), b)

  pub All-replicate : (n : ℕ) {a : A} → P a → All P (replicate n a)
  unfolding replicate
  All-replicate zero h = tt
  All-replicate (suc n) h = (h, All-replicate n h)

  pub All-take : (n : ℕ) (xs : List A) → All P xs → All P (take n xs)
  unfolding take
  All-take zero xs h = tt
  All-take (suc n) [] h = tt
  All-take (suc n) (x ∷ xs) (h, hs) = (h, All-take n xs hs)

  pub All-drop : (n : ℕ) (xs : List A) → All P xs → All P (drop n xs)
  unfolding drop
  All-drop zero xs h = h
  All-drop (suc n) [] h = tt
  All-drop (suc n) (x ∷ xs) (h, hs) = All-drop n xs hs
