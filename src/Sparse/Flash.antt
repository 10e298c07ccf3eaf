-- ===== src/Sparse/Flash.antt =====
-- What flashing a sparse image does to a disk, after the format's description: a RAW chunk's
-- payload is written, and the blocks of a DONT_CARE chunk are left as they are.
use poly_firmware_build.Base.{
  ℕ, zero, suc, ◌+◌, ◌*◌, Option, none, some, [], ◌∷◌, ◌++◌, ◌==◌, ◌&&◌, if◌then◌else◌, Bytes, take,
  drop, length,
}
use mathlib.Core.Option
use poly_firmware_build.Pack.{little, unpack}
use poly_firmware_build.Sparse.Format.{
  sparse_magic, file_hdr_sz, chunk_hdr_sz, chunk_type_raw, chunk_type_dont_care, file_widths,
  chunk_widths,
}

-- The rest of the disk after the rest of the chunks; `none` is an image that is refused.
unfoldable pub flash_chunks : ℕ → ℕ → Bytes → Bytes → Option Bytes
flash_chunks block zero simg disk = some disk
flash_chunks block (suc left) simg disk =
    elim (unpack little chunk_widths (take chunk_hdr_sz simg)) [
      | some (ctype ∷ reserved ∷ blks ∷ total_sz ∷ []) ↦
          let size = blks * block in
          let body = drop chunk_hdr_sz simg in
          let raw_rest = flash_chunks block left (drop size body) (drop size disk) in
          let skip_rest = flash_chunks block left body (drop size disk) in
          if ctype == chunk_type_raw && total_sz == chunk_hdr_sz + size
          then Option.map (λ rest. take size body ++ rest) raw_rest
          else if ctype == chunk_type_dont_care && total_sz == chunk_hdr_sz
          then Option.map (λ rest. take size disk ++ rest) skip_rest
          else none
      | _ ↦ none
    ]

unfoldable pub flash : Bytes → Bytes → Option Bytes
flash simg disk = elim (unpack little file_widths (take file_hdr_sz simg)) [
  | some (magic ∷ major ∷ minor ∷ hdr_sz ∷ chunk_sz ∷ block ∷ blks ∷ chunks ∷ checksum ∷ []) ↦
      if magic == sparse_magic && blks * block == length disk
      then flash_chunks block chunks (drop file_hdr_sz simg) disk
      else none
  | _ ↦ none
]
