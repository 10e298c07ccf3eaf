-- ===== src/Sparse/Covers.antt =====
-- What the two nested loops of `convert` collect: runs of blocks of one kind, each as long as
-- can be, that follow each other up to the end of the image.
use poly_firmware_build.Base.{
  ℕ, zero, suc, ◌+◌, ◌≤◌, ◌<◌, ◌≡◌, refl, ◌⊎◌, inl, inr, Bool, true, false, not, ◌&&◌, List, [],
  ◌∷◌, arith, ltb, Bytes, Bool-cases, ◌==◌, ==_iff,
}
use poly_firmware_build.Sparse.Convert.{is_zero_blk, same_flag, run_end, Chunk, chunk_of, collect}

-- All blocks from `i` up to `j` are zero ones, or none is, by the flag.
abbrev pub Uniform : Bytes → Bool → ℕ → ℕ → Type 0
Uniform raw zeros i j = (k : ℕ) → i ≤ k → k < j → is_zero_blk raw k ≡ zeros

-- The run ends at the end of the image, or before a block of the other kind.
abbrev pub Stops : Bytes → ℕ → Bool → ℕ → Type 0
Stops raw total zeros j = (j ≡ total) ⊎ (is_zero_blk raw j ≡ not zeros)

pub data Covers (raw : Bytes) (total : ℕ) : ℕ → List Chunk → Type 0 where
  finish : {i : ℕ} → i ≡ total → Covers raw total i []
  run :
      {i : ℕ} {cs : List Chunk} (j : ℕ) (zeros : Bool)
      → i < j
      → j ≤ total
      → Uniform raw zeros i j
      → Stops raw total zeros j
      → Covers raw total j cs
      → Covers raw total i (chunk_of raw zeros i j ∷ cs)

module _ (raw : Bytes) (total : ℕ) where
  record RunEnd (zeros : Bool) (i j : ℕ) : Type 0 where
    above : i ≤ j
    within : j ≤ total
    uniform : Uniform raw zeros i j
    stops : Stops raw total zeros j

  goes-same :
      (zeros : Bool) (j : ℕ)
      → (ltb j total && same_flag zeros (is_zero_blk raw j)) ≡ true
      → is_zero_blk raw j ≡ zeros
  goes-same true j h = ground arith
  goes-same false j h = ground arith

  ends-Stops :
      (zeros : Bool) (j : ℕ)
      → j ≤ total
      → (ltb j total && same_flag zeros (is_zero_blk raw j)) ≡ false
      → Stops raw total zeros j
  ends-Stops zeros j within h = elim (Bool-cases (ltb j total)) [
    | inl below ↦ inr (differs zeros (rw below at h))
    | inr above ↦ inl (ground arith)
  ]
    where
      differs :
          (zeros : Bool)
          → same_flag zeros (is_zero_blk raw j) ≡ false
          → is_zero_blk raw j ≡ not zeros
      differs true d = d
      differs false d = ground arith

  Uniform-cons :
      (zeros : Bool) (i j : ℕ)
      → is_zero_blk raw i ≡ zeros
      → Uniform raw zeros (i + 1) j
      → Uniform raw zeros i j
  Uniform-cons zeros i j first rest k p q = elim (Bool-cases (k == i)) [
    | inl same ↦ rw ((==_iff k i).0 same) first
    | inr differ ↦ rest k (ground arith) q
  ]

  run_end-RunEnd :
      (zeros : Bool) (fuel j : ℕ)
      → total ≤ j + fuel
      → j ≤ total
      → RunEnd zeros j (run_end raw total zeros fuel j)
  unfolding run_end
  run_end-RunEnd zeros zero j enough within = record {
    above = omega arith;
    within = within;
    uniform = λ k p q. absurd (omega arith);
    stops = inl (omega arith);
  }
  run_end-RunEnd zeros (suc fuel) j enough within =
      elim (Bool-cases (ltb j total && same_flag zeros (is_zero_blk raw j))) [
        | inl goes ↦
            let rest = run_end-RunEnd zeros fuel (j + 1) (omega arith) (ground arith) in
            rw goes (record {
              above = omega (arith, rest.above);
              within = rest.within;
              uniform = Uniform-cons zeros j _ (goes-same zeros j goes) rest.uniform;
              stops = rest.stops;
            })
        | inr ends ↦ rw ends (record {
          above = omega arith;
          within = within;
          uniform = λ k p q. absurd (omega arith);
          stops = ends-Stops zeros j within ends;
        })
      ]

  -- From any block `i` within the image, with at least as much fuel as there are blocks left, the
  -- collected chunks are runs of blocks of one kind that follow each other from `i` to the end of
  -- the image, and each run stops at the end or before a block of the other kind.
  pub collect-Covers :
      (fuel i : ℕ) → total ≤ i + fuel → i ≤ total → Covers raw total i (collect raw total fuel i)
  unfolding collect
  collect-Covers zero i enough within = finish (omega arith)
  collect-Covers (suc fuel) i enough within = elim (Bool-cases (ltb i total)) [
    | inr ends ↦ rw ends (finish (ground arith))
    | inl goes ↦
        let zeros = is_zero_blk raw i in
        let e = run_end-RunEnd zeros total (i + 1) (omega arith) (ground arith) in
        let j = run_end raw total zeros total (i + 1) in
        rw goes (
          run j zeros (omega (arith, e.above)) e.within (Uniform-cons zeros i j refl e.uniform)
            e.stops (collect-Covers fuel j (omega (arith, e.above)) e.within))
  ]
