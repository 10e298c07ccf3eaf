-- ===== src/Base/Bits.antt =====
-- Facts about the bits of bytes, each by evaluating every case.
use Prim.Native.Nat.{ℕ, zero, suc, ◌+◌, ◌≤◌, ◌<◌, bit_xor, bit_or, bit_and}
use mathlib.Core.Path.{◌≡◌, refl}
use mathlib.Core.Bool.{Bool, true, not, ◌&&◌}
use native.Mathlib.Decide.{dec_lt}
use native.Mathlib.Omega.{arith}
use poly_firmware_build.Base.Tests.{◌==◌, ==_iff, ltb, ltb→lt}

-- The test passes at every number from `i` on, `count` of them.
passes : (ℕ → Bool) → ℕ → ℕ → Bool
passes test i zero = true
passes test i (suc count) = let later = passes test (i + 1) count in test i && later

passes-at :
    (test : ℕ → Bool) (count i x : ℕ)
    → passes test i count ≡ true
    → i ≤ x
    → x < i + count
    → test x ≡ true
unfolding passes
passes-at test zero i x all from below = absurd (omega arith)
passes-at test (suc count) i x all from below = elim (dec_lt i x) [
  | yes further ↦ passes-at test count (i + 1) x (ground arith) (omega arith) (omega arith)
  | no same ↦
      let first : test i ≡ true = ground arith in
      let place : i ≡ x = omega arith in rw (← place) first
]

cancels : passes (λ m. passes (λ b. bit_xor (bit_xor b m) m == b) 0 256) 0 256 ≡ true
unfolding passes
cancels = refl

-- A mask taken twice is no mask.
pub bit_xor_twice : (b m : ℕ) → b < 256 → m < 256 → bit_xor (bit_xor b m) m ≡ b
bit_xor_twice b m small_b small_m =
    let row =
      passes-at (λ m. passes (λ b. bit_xor (bit_xor b m) m == b) 0 256) 256 0 m cancels
        (omega arith) (omega arith) in
    (==_iff (bit_xor (bit_xor b m) m) b).0
      (passes-at (λ b. bit_xor (bit_xor b m) m == b) 256 0 b row (omega arith) (omega arith))

abbrev top_is_set : ℕ → Bool
top_is_set n =
    bit_and (bit_or 0x80 n) 0x7f == n
    && not (bit_and (bit_or 0x80 n) 0x80 == 0)
    && ltb (bit_or 0x80 n) 256

tops : passes top_is_set 0 128 ≡ true
unfolding passes
tops = refl

-- The top bit put on seven bits.
pub bit_or_top :
    (n : ℕ)
    → n < 128
    → (bit_and (bit_or 0x80 n) 0x7f ≡ n)
      × (not (bit_and (bit_or 0x80 n) 0x80 == 0) ≡ true)
      × (bit_or 0x80 n < 256)
bit_or_top n small =
    let set = passes-at top_is_set 128 0 n tops (omega arith) (omega arith) in
    ground (arith, set, ==_iff (bit_and (bit_or 0x80 n) 0x7f) n, ltb→lt (bit_or 0x80 n) 256)
