-- ===== src/Sparse/Steps.antt =====
-- One chunk of a sparse image flashed, for any block size.
use mathlib.Core.Option
use poly_firmware_build.Base.{
  ℕ, suc, ◌*◌, ◌≡◌, ◌∙◌, ap, some, ◌++◌, Bytes, length, take, drop, ==_refl, take-length_append,
  drop-length_append,
}
use poly_firmware_build.Pack.{little, unpack, values}
use poly_firmware_build.Pack.RoundTrip.{packed, Fit, length-packed, unpack-packed}
use poly_firmware_build.Sparse.Format.{
  chunk_fields, chunk_hdr_sz, chunk_type_raw, chunk_type_dont_care, chunk_widths,
}
use poly_firmware_build.Sparse.Flash.{flash_chunks}

module _ (t n len : ℕ) (rest : Bytes) where
  unpack-header :
      Fit (chunk_fields t n len)
      → unpack little chunk_widths
          (take chunk_hdr_sz (packed little (chunk_fields t n len) ++ rest))
        ≡ some (values (chunk_fields t n len))
  unpack-header fit =
      ap (unpack little chunk_widths)
        (take-length_append chunk_hdr_sz _ rest (length-packed little (chunk_fields t n len)))
      ∙ unpack-packed little (chunk_fields t n len) fit

  drop-header : drop chunk_hdr_sz (packed little (chunk_fields t n len) ++ rest) ≡ rest
  drop-header = drop-length_append chunk_hdr_sz _ rest (length-packed little (chunk_fields t n len))

pub flash_chunks-raw :
    (block n left : ℕ) (p rest disk : Bytes)
    → Fit (chunk_fields chunk_type_raw n (length p))
    → length p ≡ n * block
    → flash_chunks block
        (suc left)
        (packed little (chunk_fields chunk_type_raw n (length p)) ++ (p ++ rest))
        disk
      ≡ Option.map (λ later. p ++ later) (flash_chunks block left rest (drop (n * block) disk))
unfolding flash_chunks
flash_chunks-raw block n left p rest disk fit size = rw (
  unpack-header chunk_type_raw n (length p) (p ++ rest) fit,
  flash_chunks,
  drop-header chunk_type_raw n (length p) (p ++ rest),
  take-length_append (n * block) p rest size,
  drop-length_append (n * block) p rest size,
  size,
  ==_refl,
)

pub flash_chunks-skip :
    (block n left : ℕ) (rest disk : Bytes)
    → Fit (chunk_fields chunk_type_dont_care n 0)
    → flash_chunks block
        (suc left)
        (packed little (chunk_fields chunk_type_dont_care n 0) ++ rest)
        disk
      ≡ Option.map
          (λ later. take (n * block) disk ++ later)
          (flash_chunks block left rest (drop (n * block) disk))
unfolding flash_chunks
flash_chunks-skip block n left rest disk fit = rw (
  unpack-header chunk_type_dont_care n 0 rest fit,
  flash_chunks,
  drop-header chunk_type_dont_care n 0 rest,
)
