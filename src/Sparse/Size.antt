-- ===== src/Sparse/Size.antt =====
-- The size of the image that `convert` writes.
use poly_firmware_build.Base.{
  ℕ, zero, suc, ◌+◌, ◌-◌, ◌*◌, ◌≤◌, ◌<◌, ◌^◌, ◌≡◌, refl, inl, inr, Bool, true, false, some, List,
  ◌∷◌, ◌++◌, arith, if◌then◌else◌, Bytes, Text, length, length-append, length-slice, ap, ap₂, not,
  ◌∙◌,
}
use poly_firmware_build.Host.{World, done, holding}
use poly_firmware_build.Pack.{little}
use poly_firmware_build.Pack.RoundTrip.{packed, length-packed}
use poly_firmware_build.Sparse.Format.{blk_sz, chunk_hdr_sz, sparse_fields}
use poly_firmware_build.Sparse.Convert.{
  is_zero_blk, Chunk, chunk_of, convert, pad_tail, Converted, payload_bytes,
}
use poly_firmware_build.Sparse.Covers.{Uniform, Covers, finish, run}
use poly_firmware_build.Sparse.Image.{fields_of, chunks_bytes}
use poly_firmware_build.Sparse.Laws.{
  blocks, blocks-mul, length-pad_tail, HasGaps, chunks_of, converted, chunks-Covers, length-Covers,
  convert-converted,
}
use poly_firmware_build.Sparse.Verify.{round_up}

-- How many of `n` blocks from `i` on are not zero ones.
unfoldable pub stored : Bytes → ℕ → ℕ → ℕ
stored raw zero i = 0
stored raw (suc n) i = (if is_zero_blk raw i then 0 else 1) + stored raw n (i + 1)

abbrev stored_run : Bool → ℕ → ℕ
stored_run true n = 0
stored_run false n = n

stored-Uniform :
    (raw : Bytes) (zeros : Bool) (n m i j : ℕ)
    → j ≡ i + n
    → Uniform raw zeros i j
    → stored raw (n + m) i ≡ stored_run zeros n + stored raw m j
unfolding stored
stored-Uniform raw zeros zero m i j e u =
    let same : stored raw (zero + m) i ≡ stored raw m j =
      ap₂ (stored raw) (omega arith) (omega (arith, e)) in
    none_more zeros (omega (arith, same))
  where
    none_more :
        (zeros : Bool)
        → stored raw (zero + m) i ≡ stored raw m j
        → stored raw (zero + m) i ≡ stored_run zeros zero + stored raw m j
    none_more true same = omega (arith, same)
    none_more false same = omega (arith, same)
stored-Uniform raw zeros (suc n) m i j e u =
    let later = stored-Uniform raw zeros n m (i + 1) j (omega arith) λ k p q. u k (omega arith) q in
    let shift : suc n + m ≡ suc (n + m) = omega arith in
    one_more zeros (ap (λ k. stored raw k i) shift) (u i (omega arith) (omega arith)) later
  where
    one_more :
        (zeros : Bool)
        → stored raw (suc n + m) i ≡ stored raw (suc (n + m)) i
        → is_zero_blk raw i ≡ zeros
        → stored raw (n + m) (i + 1) ≡ stored_run zeros n + stored raw m j
        → stored raw (suc n + m) i ≡ stored_run zeros (suc n) + stored raw m j
    one_more true shift kind later = let first = rw kind at shift in omega (arith, first, later)
    one_more false shift kind later = let first = rw kind at shift in omega (arith, first, later)

-- How many chunks there can be, by the kind of the first one, where `n` blocks are stored.
abbrev most_chunks : Bool → ℕ → ℕ
most_chunks true n = 2 * n + 1
most_chunks false n = 2 * n

length-chunk :
    (c : Chunk) (cs : List Chunk)
    → length (chunks_bytes (c ∷ cs))
      ≡ chunk_hdr_sz + length (payload_bytes c.payload) + length (chunks_bytes cs)
length-chunk c cs = omega (
  arith,
  length-append (packed little (fields_of c)) (payload_bytes c.payload ++ chunks_bytes cs),
  length-append (payload_bytes c.payload) (chunks_bytes cs),
  length-packed little (fields_of c),
)

module _ (raw : Bytes) (total : ℕ) (whole : length raw ≡ total * blk_sz) where
  length-payload_bytes :
      (zeros : Bool) (i j : ℕ)
      → i < j
      → j ≤ total
      → length (payload_bytes (chunk_of raw zeros i j).payload) ≡ blk_sz * stored_run zeros (j - i)
  length-payload_bytes true i j above below = refl
  length-payload_bytes false i j above below =
      omega (arith, length-slice (i * blk_sz) (j * blk_sz) raw (omega arith))

  -- The blocks of a run, and those behind it.
  stored-run :
      (zeros : Bool) (i j : ℕ)
      → i < j
      → j ≤ total
      → Uniform raw zeros i j
      → stored raw (total - i) i ≡ stored_run zeros (j - i) + stored raw (total - j) j
  stored-run zeros i j above below u =
      ap (λ n. stored raw n i) (omega arith)
      ∙ stored-Uniform raw zeros (j - i) (total - j) i j (omega arith) u

  length-chunks_bytes :
      {i : ℕ} {cs : List Chunk}
      → Covers raw total i cs
      → length (chunks_bytes cs) ≡ chunk_hdr_sz * length cs + blk_sz * stored raw (total - i) i
  unfolding stored
  length-chunks_bytes (finish {i = i} e) =
      let ended : total - i ≡ zero = omega arith in
      let none_left : stored raw (total - i) i ≡ 0 = ap (λ n. stored raw n i) ended in
      omega (arith, none_left)
  length-chunks_bytes (run {i = i} {cs = cs} j zeros above below u stops rest) = omega (
    arith,
    length-chunk (chunk_of raw zeros i j) cs,
    length-payload_bytes zeros i j above below,
    stored-run zeros i j above below u,
    length-chunks_bytes rest,
  )

  -- Runs of the two kinds take turns.
  length-most_chunks :
      {i : ℕ} {cs : List Chunk}
      → Covers raw total i cs
      → length cs ≤ most_chunks (is_zero_blk raw i) (stored raw (total - i) i)
  length-most_chunks (finish {i = i} e) = omega arith
  length-most_chunks (run {i = i} {cs = cs} j zeros above below u stops rest) =
      rw (u i (omega arith) above) (
        turns zeros (stored-run zeros i j above below u) (elim stops [
          | inl end ↦ omega (arith, length-Covers raw total rest)
          | inr other ↦ rw other at (length-most_chunks rest)
        ]))
    where
      turns :
          (zeros : Bool)
          → stored raw (total - i) i ≡ stored_run zeros (j - i) + stored raw (total - j) j
          → length cs ≤ most_chunks (not zeros) (stored raw (total - j) j)
          → suc (length cs) ≤ most_chunks zeros (stored raw (total - i) i)
      turns true here later = omega (arith, here, later)
      turns false here later = omega (arith, here, later)

-- The number of blocks of an image that are not zero ones.
abbrev pub stored_blocks : Bytes → ℕ
stored_blocks raw = stored raw (blocks raw) 0

-- On an input of fewer than 2 ^ 32 blocks, with a zero block among any 2 ^ 20 in a row, `convert`
-- writes an image of 28 bytes, 12 for each chunk and 4096 for each block that is not zero, and
-- returns the numbers: the blocks are those of the input rounded up, and the chunks are no more
-- than the blocks, and than twice the blocks that are not zero and one.
pub convert-length :
    (given : Bytes) (few : blocks (pad_tail given) < 2 ^ 32) (gaps : HasGaps (pad_tail given))
    (raw_in simg_out : Text) (w : World)
    → w.files raw_in ≡ some given
    → (r : Converted) × (img : Bytes) × (convert raw_in simg_out w
        ≡ done r (holding simg_out img w))
      × (length img ≡ 28 + 12 * r.total_chunks + 4096 * stored_blocks (pad_tail given))
      × (4096 * r.total_blks ≡ round_up (length given))
      × (r.total_chunks ≤ r.total_blks)
      × (r.total_chunks ≤ 2 * stored_blocks (pad_tail given) + 1)
convert-length given few gaps raw_in simg_out w there =
    let raw = pad_tail given in
    let cs = chunks_of raw in
    let covers = chunks-Covers given few gaps in
    let total = blocks raw in
    let whole = blocks-mul given in
    let whole_run : total - 0 ≡ total = omega arith in
    let all : stored raw (total - 0) 0 ≡ stored_blocks raw = ap (λ n. stored raw n 0) whole_run in
    (
      record { total_blks = total; total_chunks = length cs; raw_len = length raw },
      converted raw,
      convert-converted given few gaps raw_in simg_out w there,
      omega (
        arith,
        length-append (packed little (sparse_fields blk_sz total (length cs))) (chunks_bytes cs),
        length-packed little (sparse_fields blk_sz total (length cs)),
        length-chunks_bytes raw total whole covers,
        all,
      ),
      omega (arith, whole, length-pad_tail given),
      omega (arith, length-Covers raw total covers),
      by_first (is_zero_blk raw 0) (length cs) (stored_blocks raw)
          (rw all at (length-most_chunks raw total whole covers)),
    )
  where
    by_first : (zeros : Bool) (n m : ℕ) → n ≤ most_chunks zeros m → n ≤ 2 * m + 1
    by_first true n m h = h
    by_first false n m h = omega (arith, h)
