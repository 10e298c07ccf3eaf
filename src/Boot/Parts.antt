-- ===== src/Boot/Parts.antt =====
-- The parts of the image: padding, the two fields of the command line, and the header's numbers.
use native.Mathlib.Nat.{mod_self, mod-eq_of_lt}
use poly_firmware_build.Base.{
  ℕ, ◌+◌, ◌-◌, ◌%◌, ◌^◌, ◌≤◌, ◌<◌, ◌≡◌, refl, sym, ◌∙◌, ap, List, [], ◌∷◌, ◌++◌, arith, Bytes,
  length, take, drop, ljust, replicate, append_assoc, append-nil, length-replicate, length-take,
  length-drop, take_all, drop_all, replicate-add, take-append-drop, dec_lt,
}
use poly_firmware_build.Host.{ok}
use poly_firmware_build.Pack.{little, Fields}
use poly_firmware_build.Pack.RoundTrip.{packed}
use poly_firmware_build.Boot.{pad, u32, words, pad_part}
use poly_firmware_build.Boot.Loader.{up}

-- The two fields of the command line are the command line filled up to 1536 bytes.
pub ljust-split :
    (c : Bytes)
    → length c ≤ 1536
    → ljust 512 0 (take 512 c) ++ ljust 1024 0 (drop 512 c) ≡ ljust 1536 0 c
ljust-split c fits = elim (dec_lt 512 (length c)) [
  | yes long ↦
      let full : 512 - length (take 512 c) ≡ 0 = omega (arith, length-take 512 c) in
      let left : 1024 - length (drop 512 c) ≡ 1536 - length c = omega (arith, length-drop 512 c) in
      rw (full, left)
        (unfold replicate in
          ap (λ b. b ++ (drop 512 c ++ replicate (1536 - length c) 0)) (append-nil (take 512 c))
          ∙ sym (append_assoc (take 512 c) (drop 512 c) (replicate (1536 - length c) 0))
          ∙ ap (λ b. b ++ replicate (1536 - length c) 0) (take-append-drop 512 c))
  | no short ↦
      rw (take_all 512 c (omega arith), drop_all 512 c (omega arith))
        (append_assoc c (replicate (512 - length c) 0) (replicate 1024 0)
          ∙ ap (λ b. c ++ b)
              (sym (replicate-add (512 - length c) 1024 0) ∙ ap (λ n. replicate n 0) (omega arith)))
]

-- The zeros that `pad` puts behind a part.
abbrev pub zeros_after : ℕ → Bytes → Bytes
zeros_after page b = replicate ((page - length b % page) % page) 0

no_gap : (page : ℕ) → (page - 0) % page ≡ 0
no_gap page = let all : page - 0 ≡ page = omega arith in ap (λ k. k % page) all ∙ mod_self page

module _ (page : ℕ) (some_page : 0 < page) where
  pub pad_total : (b : Bytes) → pad b page ≡ ok (b ++ zeros_after page b)
  unfolding pad
  pad_total b = ground arith

  pub pad_part_total : (b : Bytes) → pad_part b page ≡ ok (b ++ zeros_after page b)
  unfolding replicate
  pad_part_total [] =
      let none_missing : (page - 0 % page) % page ≡ 0 =
        ap (λ n. (page - n) % page) (mod-eq_of_lt some_page) ∙ no_gap page in
      rw none_missing
  pad_part_total (c ∷ cs) = pad_total (c ∷ cs)

  pub length-zeros_after : (b : Bytes) → length b + length (zeros_after page b) ≡ up page (length b)
  length-zeros_after b = omega (arith, length-replicate {A = ℕ} ((page - length b % page) % page) 0)

-- A header of at most one page fills the first page.
pub up_first : (n page : ℕ) → 0 < n → n ≤ page → up page n ≡ page
up_first n page positive small = elim (dec_lt n page) [
  | yes less ↦
      let own : n % page ≡ n = mod-eq_of_lt less in
      let gap : (page - n) % page ≡ page - n = mod-eq_of_lt (omega arith) in
      rw (own, gap) (omega arith)
  | no whole ↦
      let same : n ≡ page = omega arith in
      let gone : n % page ≡ 0 = ap (λ k. k % page) same ∙ mod_self page in
      let gap : (page - 0) % page ≡ 0 = no_gap page in rw (gone, gap) (omega (arith, same))
]

abbrev pub word_fields : List ℕ → Fields
word_fields [] = []
word_fields (x ∷ xs) = (4, x % 2 ^ 32) ∷ word_fields xs

pub words-packed : (xs : List ℕ) → words xs ≡ packed little (word_fields xs)
unfolding words u32
words-packed [] = refl
words-packed (x ∷ xs) = ap (λ b. u32 x ++ b) (words-packed xs)

pub flatten :
    (m w n c i e z k zk r zr s zs : Bytes)
    → ((m ++ (w ++ (n ++ (c ++ (i ++ e))))) ++ z) ++ (k ++ zk) ++ ((r ++ zr) ++ (s ++ zs))
      ≡ m ++ (w ++ (n ++ (c ++ (i ++ (e ++ (z ++ (k ++ (zk ++ (r ++ (zr ++ (s ++ zs)))))))))))
flatten m w n c i e z k zk r zr s zs = simp append_assoc refl
