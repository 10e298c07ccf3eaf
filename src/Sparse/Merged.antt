-- ===== src/Sparse/Merged.antt =====
-- What flashing the converted image has to give, block by block, with no mention of chunks.
use poly_firmware_build.Base.{
  ℕ, zero, suc, ◌+◌, ◌*◌, ◌≡◌, refl, sym, ◌∙◌, ap, ap₂, Bool, true, false, [], ◌++◌, arith, Bytes,
  if◌then◌else◌, length, take, drop, slice, replicate, text_eq_iff, append_assoc, drop-drop,
  take-add, slice-append, length-replicate, take-length_append, drop-length_append, replicate-add,
  slice_none,
}
use Prim.Native.Nat.add
use poly_firmware_build.Sparse.Format.{blk_sz}
use poly_firmware_build.Sparse.Convert.{is_zero_blk, zero_blk}
use poly_firmware_build.Sparse.Covers.{Uniform}

-- The disk from block `i` of the image on, after the next `n` blocks: a zero block of the image
-- leaves the disk's block, and any other block replaces it.
unfoldable pub merged : Bytes → ℕ → ℕ → Bytes → Bytes
merged raw zero i disk = disk
merged raw (suc n) i disk =
    let rest = merged raw n (i + 1) (drop blk_sz disk) in
    (if is_zero_blk raw i then take blk_sz disk else slice raw (i * blk_sz) ((i + 1) * blk_sz))
    ++ rest

-- The blocks of a run from `i` up to `j`, `n` of them, together.
abbrev pub run_bytes : Bytes → Bool → ℕ → ℕ → ℕ → Bytes → Bytes
run_bytes raw true n i j disk = take (n * blk_sz) disk
run_bytes raw false n i j disk = slice raw (i * blk_sz) (j * blk_sz)

run_bytes-none :
    (raw : Bytes) (zeros : Bool) (i j : ℕ) (disk : Bytes)
    → j ≡ i + 0
    → run_bytes raw zeros 0 i j disk ≡ []
unfolding take
run_bytes-none raw true i j disk e = refl
run_bytes-none raw false i j disk e = slice_none (i * blk_sz) (j * blk_sz) raw (omega arith)

run_bytes-cons :
    (raw : Bytes) (zeros : Bool) (n i j : ℕ) (disk : Bytes)
    → j ≡ i + suc n
    → run_bytes raw zeros (suc n) i j disk
      ≡ run_bytes raw zeros 1 i (i + 1) disk ++ run_bytes raw zeros n (i + 1) j (drop blk_sz disk)
run_bytes-cons raw true n i j disk e =
    ap (λ k. take k disk) (omega arith) ∙ take-add blk_sz (n * blk_sz) disk
run_bytes-cons raw false n i j disk e =
    sym (slice-append (i * blk_sz) ((i + 1) * blk_sz) (j * blk_sz) raw (omega arith) (omega arith))

merged-suc :
    (raw : Bytes) (zeros : Bool) (k i : ℕ) (disk : Bytes)
    → is_zero_blk raw i ≡ zeros
    → merged raw (suc k) i disk
      ≡ run_bytes raw zeros 1 i (i + 1) disk ++ merged raw k (i + 1) (drop blk_sz disk)
unfolding merged
merged-suc raw true k i disk h = rw h
merged-suc raw false k i disk h = rw h

pub merged_run :
    (raw : Bytes) (zeros : Bool) (n m i j : ℕ) (disk : Bytes)
    → j ≡ i + n
    → Uniform raw zeros i j
    → merged raw (n + m) i disk
      ≡ run_bytes raw zeros n i j disk ++ merged raw m j (drop (n * blk_sz) disk)
merged_run raw zeros zero m i j disk e u =
    let k : zero + m ≡ m = omega arith in
    let q : i ≡ j = omega arith in
    ap₂ (λ a b. merged raw a b disk) k q ∙ (unfold drop in rw (run_bytes-none raw zeros i j disk e))
merged_run raw zeros (suc n) m i j disk e u =
    let d = drop blk_sz disk in
    let first = run_bytes raw zeros 1 i (i + 1) disk in
    let rest = run_bytes raw zeros n (i + 1) j d in
    let len : blk_sz + n * blk_sz ≡ suc n * blk_sz = omega arith in
    ap (λ k. merged raw k i disk) (add.suc n m)
    ∙ merged-suc raw zeros (n + m) i disk (u i (omega arith) (omega arith))
    ∙ ap (λ b. first ++ b)
        (merged_run raw zeros n m (i + 1) j d (omega arith) (λ k p q. u k (omega arith) q))
    ∙ sym (append_assoc first rest _)
    ∙ ap₂ ◌++◌ (sym (run_bytes-cons raw zeros n i j disk e))
        (ap (merged raw m j) (drop-drop blk_sz (n * blk_sz) disk ∙ ap (λ k. drop k disk) len))

-- On a disk of zeros the merge is the image itself.
pub merged_zeros :
    (raw : Bytes) (n i j : ℕ)
    → j ≡ i + n
    → merged raw n i (replicate (n * blk_sz) 0) ≡ slice raw (i * blk_sz) (j * blk_sz)
unfolding merged
merged_zeros raw zero i j e =
    unfold replicate in sym (slice_none (i * blk_sz) (j * blk_sz) raw (omega arith))
merged_zeros raw (suc n) i j e =
    let zeros : replicate (suc n * blk_sz) 0 ≡ zero_blk ++ replicate (n * blk_sz) 0 =
      unfold zero_blk in
      (ap (λ k. replicate k 0) (omega arith) ∙ replicate-add blk_sz (n * blk_sz) 0) in
    let len : length zero_blk ≡ blk_sz = unfold zero_blk in length-replicate blk_sz 0 in
    rw
      (
        zeros,
        take-length_append blk_sz zero_blk (replicate (n * blk_sz) 0) len,
        drop-length_append blk_sz zero_blk (replicate (n * blk_sz) 0) len,
        merged_zeros raw n (i + 1) j (omega arith),
      )
      (ap (λ b. b ++ slice raw ((i + 1) * blk_sz) (j * blk_sz)) (block_at (is_zero_blk raw i) refl)
        ∙ slice-append (i * blk_sz) ((i + 1) * blk_sz) (j * blk_sz) raw (omega arith) (omega arith))
  where
    block_at :
        (zeros : Bool)
        → is_zero_blk raw i ≡ zeros
        → (if zeros then zero_blk else slice raw (i * blk_sz) ((i + 1) * blk_sz))
          ≡ slice raw (i * blk_sz) ((i + 1) * blk_sz)
    block_at true h = unfold is_zero_blk in sym ((text_eq_iff _ zero_blk).0 h)
    block_at false h = refl
