-- ===== src/Sparse/RoundTrip.antt =====
-- `convert` against the description of the format: what it writes, and what flashing that gives.
use poly_firmware_build.Sparse.Steps.{flash_chunks-raw, flash_chunks-skip}
use mathlib.Core.Option
use poly_firmware_build.Base.{
  ℕ, zero, suc, ◌+◌, ◌-◌, ◌*◌, ◌≤◌, ◌≡◌, refl, ◌∙◌, Bool, true, false, some, List, ◌++◌, arith,
  Bytes, All, length, drop, slice, length-slice, ==_refl,
}
use poly_firmware_build.Pack.RoundTrip.{packed}
use poly_firmware_build.Pack.{little}
use poly_firmware_build.Sparse.Format.{blk_sz}
use poly_firmware_build.Sparse.Convert.{Chunk, chunk_of, payload_bytes}
use poly_firmware_build.Sparse.Covers.{Covers, finish, run}
use poly_firmware_build.Sparse.Flash.{flash, flash_chunks}
use poly_firmware_build.Sparse.Image.{
  ChunkFits, chunks_bytes, image_of, HeaderFits, fields_of, take-image, drop-image, unpack-image,
}
use poly_firmware_build.Sparse.Merged.{merged, merged_run, run_bytes}

-- One chunk flashed: its run, then the rest of the image on the rest of the disk.
flash_chunks-cons :
    (raw : Bytes) (zeros : Bool) (i j left : ℕ) (rest disk : Bytes)
    → i ≤ j
    → j * blk_sz ≤ length raw
    → ChunkFits (chunk_of raw zeros i j)
    → flash_chunks blk_sz
        (suc left)
        (packed little (fields_of (chunk_of raw zeros i j))
          ++ (payload_bytes ((chunk_of raw zeros i j).payload) ++ rest))
        disk
      ≡ Option.map
          (λ later. run_bytes raw zeros (j - i) i j disk ++ later)
          (flash_chunks blk_sz left rest (drop ((j - i) * blk_sz) disk))
flash_chunks-cons raw true i j left rest disk le within fits =
    flash_chunks-skip blk_sz (j - i) left rest disk fits
flash_chunks-cons raw false i j left rest disk le within fits =
    flash_chunks-raw blk_sz (j - i) left (slice raw (i * blk_sz) (j * blk_sz)) rest disk fits
      (omega (arith, length-slice (i * blk_sz) (j * blk_sz) raw within))

flash_chunks-Covers :
    (raw : Bytes) (total i left : ℕ) {cs : List Chunk} (disk : Bytes)
    → Covers raw total i cs
    → i + left ≡ total
    → total * blk_sz ≤ length raw
    → All ChunkFits cs
    → flash_chunks blk_sz (length cs) (chunks_bytes cs) disk ≡ some (merged raw left i disk)
flash_chunks-Covers raw total i zero disk (finish e) sum within fits =
    unfold flash_chunks merged in refl
flash_chunks-Covers raw total i (suc left) disk (finish e) sum within fits = absurd (omega arith)
flash_chunks-Covers raw total i left disk (run {cs} j zeros above below uniform stops rest) sum
      within (fit, fits) =
    let n = j - i in
    let more = total - j in
    let split : left ≡ n + more = omega arith in
    flash_chunks-cons raw zeros i j (length cs) (chunks_bytes cs) disk (omega arith) (omega arith)
      fit
    ∙ rw (
      flash_chunks-Covers raw total j more (drop (n * blk_sz) disk) rest (omega arith) within fits,
      split,
      merged_run raw zeros n more i j disk (omega arith) uniform,
    )

-- The image of chunks that cover the raw blocks, flashed to a disk of the same size.
pub flash-Covers :
    (raw : Bytes) (total : ℕ) {cs : List Chunk} (disk : Bytes)
    → Covers raw total 0 cs
    → length raw ≡ total * blk_sz
    → length disk ≡ total * blk_sz
    → HeaderFits total cs
    → All ChunkFits cs
    → flash (image_of total cs) disk ≡ some (merged raw total 0 disk)
unfolding flash
flash-Covers raw total {cs} disk covers size disk_size header fits =
    rw
      (
        take-image total cs,
        unpack-image total cs header,
        flash,
        drop-image total cs,
        disk_size,
        ==_refl,
      )
      (flash_chunks-Covers raw total 0 total disk covers (omega arith) (omega arith) fits)
