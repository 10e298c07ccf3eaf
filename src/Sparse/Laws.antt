-- ===== src/Sparse/Laws.antt =====
-- `convert` as a whole, on images whose headers can be packed.
use poly_firmware_build.Base.{
  ℕ, ◌+◌, ◌-◌, ◌*◌, ◌/◌, ◌%◌, ◌^◌, ◌≤◌, ◌<◌, ◌≡◌, sym, ◌∙◌, ap, inl, inr, true, false, some, List,
  [], arith, Bool, dec_lt, true_ne_false, Bytes, Text, Bool-cases, All, length, replicate,
  length-append, length-replicate, length-slice, slice_all, ◌==◌,
}
use poly_firmware_build.Host.{World, done, holding, append_file-holding}
use poly_firmware_build.Pack.RoundTrip.{packed}
use poly_firmware_build.Pack.{little}
use poly_firmware_build.Sparse.Format.{blk_sz, sparse_fields}
use poly_firmware_build.Sparse.Convert.{
  is_zero_blk, Chunk, chunk_of, collect, convert, pad_tail, Converted,
}
use poly_firmware_build.Sparse.Covers.{Uniform, Covers, finish, run, collect-Covers}
use poly_firmware_build.Sparse.Flash.{flash}
use poly_firmware_build.Sparse.Image.{
  ChunkFits, image_of, HeaderFits, write_chunks-bytes, file_header-packed,
}
use poly_firmware_build.Sparse.Merged.{merged, merged_zeros}
use poly_firmware_build.Sparse.RoundTrip.{flash-Covers}
use poly_firmware_build.Sparse.Verify.{round_up}

pub length-pad_tail : (given : Bytes) → length (pad_tail given) ≡ round_up (length given)
unfolding pad_tail
length-pad_tail given = elim (Bool-cases (length given % blk_sz == 0)) [
  | inl whole ↦ rw whole (ground arith)
  | inr part ↦ rw part (
      ground (
        arith,
        length-append given (replicate (blk_sz - length given % blk_sz) 0),
        length-replicate {A = ℕ} (blk_sz - length given % blk_sz) 0,
      ))
]

-- The number of blocks of a padded image.
abbrev pub blocks : Bytes → ℕ
blocks raw = length raw / blk_sz

pub blocks-mul : (given : Bytes) → length (pad_tail given) ≡ blocks (pad_tail given) * blk_sz
blocks-mul given = omega (arith, length-pad_tail given)

-- Among any 2 ^ 20 blocks in a row there is a zero one: no RAW chunk reaches 4 GiB.
abbrev pub HasGaps : Bytes → Type 0
HasGaps raw =
    (i : ℕ)
    → i + 2 ^ 20 ≤ blocks raw
    → (k : ℕ) × (i ≤ k) × (k < i + 2 ^ 20) × (is_zero_blk raw k ≡ true)

chunk_of-ChunkFits :
    (raw : Bytes) (zeros : Bool) (i j : ℕ)
    → HasGaps raw
    → blocks raw < 2 ^ 32
    → i < j
    → j ≤ blocks raw
    → Uniform raw zeros i j
    → ChunkFits (chunk_of raw zeros i j)
chunk_of-ChunkFits raw true i j gaps few above below u = omega arith
chunk_of-ChunkFits raw false i j gaps few above below u =
    let len = length-slice (i * blk_sz) (j * blk_sz) raw (omega arith) in
    let short : j - i < 2 ^ 20 = run_short in omega (arith, len)
  where
    run_short : j - i < 2 ^ 20
    run_short = elim (dec_lt (j - i) (2 ^ 20)) [
      | yes below_gap ↦ below_gap
      | no long ↦
          let (k, after, before, is_zero) = gaps i (omega arith) in
          absurd (true_ne_false (sym is_zero ∙ u k after (omega arith)))
    ]

Covers-ChunkFits :
    (raw : Bytes) {i : ℕ} {cs : List Chunk}
    → HasGaps raw
    → blocks raw < 2 ^ 32
    → Covers raw (blocks raw) i cs
    → All ChunkFits cs
Covers-ChunkFits raw gaps few (finish e) = tt
Covers-ChunkFits raw gaps few (run j zeros above below u stops rest) =
    (chunk_of-ChunkFits raw zeros _ j gaps few above below u, Covers-ChunkFits raw gaps few rest)

pub length-Covers :
    (raw : Bytes) (total : ℕ) {i : ℕ} {cs : List Chunk}
    → Covers raw total i cs
    → length cs + i ≤ total
length-Covers raw total (finish e) = omega arith
length-Covers raw total (run j zeros above below u stops rest) =
    omega (arith, length-Covers raw total rest)

-- The chunks that `convert` collects from an input, and the image that it writes.
abbrev pub chunks_of : Bytes → List Chunk
chunks_of raw = collect raw (blocks raw) (blocks raw) 0

abbrev pub converted : Bytes → Bytes
converted raw = image_of (blocks raw) (chunks_of raw)

module _ (given : Bytes) (few : blocks (pad_tail given) < 2 ^ 32)
    (gaps : HasGaps (pad_tail given)) where
  pub chunks-Covers :
      Covers (pad_tail given) (blocks (pad_tail given)) 0 (chunks_of (pad_tail given))
  chunks-Covers =
      let raw = pad_tail given in
      collect-Covers raw (blocks raw) (blocks raw) 0 (omega arith) (omega arith)

  pub chunks-ChunkFits : All ChunkFits (chunks_of (pad_tail given))
  chunks-ChunkFits = Covers-ChunkFits (pad_tail given) gaps few chunks-Covers

  pub chunks-HeaderFits : HeaderFits (blocks (pad_tail given)) (chunks_of (pad_tail given))
  chunks-HeaderFits =
      let n = length-Covers (pad_tail given) (blocks (pad_tail given)) chunks-Covers in
      (few, omega arith)

  pub convert-converted :
      (raw_in simg_out : Text) (w : World)
      → w.files raw_in ≡ some given
      → convert raw_in simg_out w
        ≡ done
            (record {
              total_blks = blocks (pad_tail given);
              total_chunks = length (chunks_of (pad_tail given));
              raw_len = length (pad_tail given);
            })
            (holding simg_out (converted (pad_tail given)) w)
  unfolding convert
  convert-converted raw_in simg_out w there =
      let raw = pad_tail given in
      let hdr = packed little (sparse_fields blk_sz (blocks raw) (length (chunks_of raw))) in
      rw (
        there,
        file_header-packed (blocks raw) (chunks_of raw) chunks-HeaderFits,
        append_file-holding simg_out [] hdr w,
        write_chunks-bytes simg_out (chunks_of raw) hdr w chunks-ChunkFits,
      )

  flash-converted :
      (disk : Bytes)
      → length disk ≡ length (pad_tail given)
      → flash (converted (pad_tail given)) disk
        ≡ some (merged (pad_tail given) (blocks (pad_tail given)) 0 disk)
  flash-converted disk same =
      flash-Covers (pad_tail given) (blocks (pad_tail given)) disk chunks-Covers (blocks-mul given)
        (same ∙ blocks-mul given) chunks-HeaderFits chunks-ChunkFits

  flash_zeros-converted :
      flash (converted (pad_tail given)) (replicate (length (pad_tail given)) 0)
      ≡ some (pad_tail given)
  flash_zeros-converted =
      let raw = pad_tail given in
      flash-converted (replicate (length raw) 0) (length-replicate (length raw) 0)
      ∙ ap some (
          ap (λ n. merged raw (blocks raw) 0 (replicate n 0)) (blocks-mul given)
          ∙ merged_zeros raw (blocks raw) 0 (blocks raw) (omega arith)
          ∙ slice_all (blocks raw * blk_sz) raw (blocks-mul given))

  -- An input of fewer than 2 ^ 32 blocks, with a zero block among any 2 ^ 20 in a row: `convert`
  -- writes an image that, flashed to a disk of the padded size, puts every block of the input that
  -- is not zero in its place and leaves the disk's blocks at the others; flashed to a disk of
  -- zeros, it gives the padded input itself.
  pub convert-flash :
      (raw_in simg_out : Text) (w : World)
      → w.files raw_in ≡ some given
      → (r : Converted) × (img : Bytes) × (convert raw_in simg_out w
          ≡ done r (holding simg_out img w))
        × ((disk : Bytes)
            → length disk ≡ length (pad_tail given)
            → flash img disk ≡ some (merged (pad_tail given) (blocks (pad_tail given)) 0 disk))
        × (flash img (replicate (length (pad_tail given)) 0) ≡ some (pad_tail given))
  convert-flash raw_in simg_out w there = (
    _,
    converted (pad_tail given),
    convert-converted raw_in simg_out w there,
    flash-converted,
    flash_zeros-converted,
  )
