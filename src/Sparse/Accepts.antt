-- ===== src/Sparse/Accepts.antt =====
-- What `verify` accepts: every converted image, and the same image with its last payload missing.
use poly_firmware_build.Base.{
  [], ◌∷◌, ℕ, ◌*◌, ◌^◌, ◌<◌, ◌≡◌, sym, ◌∙◌, ap, false, some, List, ◌++◌, arith, Bytes, All, ◌≤◌,
  Text, length, drop-length_append, take-length_append, ==_refl, text_eq,
}
use poly_firmware_build.Host.{warned, World, done, ok, holding, update_self}
use poly_firmware_build.Pack.{little}
use poly_firmware_build.Pack.RoundTrip.{packed, length-packed, unpack-packed}
use poly_firmware_build.Sparse.Format.{blk_sz, sparse_fields, file_hdr_sz}
use poly_firmware_build.Sparse.Convert.{Chunk, convert, pad_tail, Converted}
use poly_firmware_build.Sparse.Covers.{Covers}
use poly_firmware_build.Sparse.Image.{ChunkFits, HeaderFits, sparse_fields-Fit}
use poly_firmware_build.Sparse.Laws.{
  blocks, blocks-mul, HasGaps, chunks_of, converted, chunks-Covers, chunks-ChunkFits,
  chunks-HeaderFits, convert-converted, length-pad_tail,
}
use poly_firmware_build.Sparse.SelfCheck.{
  cut_bytes, last_payload, chunks_bytes-cut_bytes, cursor, walk_chunks-Covers,
}
use poly_firmware_build.Sparse.Verify.{Header, verified_line, check_header, verify_image, verify}

-- The image with other bytes in place of its last payload.
abbrev pub cut_image : ℕ → List Chunk → Bytes → Bytes
cut_image total cs stub =
    packed little (sparse_fields blk_sz total (length cs)) ++ cut_bytes cs stub

module _ (total : ℕ) (cs : List Chunk) (stub : Bytes) (fits : HeaderFits total cs) where
  check_header-cut :
      check_header (cut_image total cs stub)
      ≡ ok (record { total_blks = total; total_chunks = length cs })
  unfolding check_header
  check_header-cut =
      let fields = sparse_fields blk_sz total (length cs) in
      rw (
        take-length_append file_hdr_sz _ (cut_bytes cs stub) (length-packed little fields),
        length-packed little fields,
        unpack-packed little fields (sparse_fields-Fit total cs fits),
        check_header,
      )

  pub verify_image-cut :
      (raw : Bytes)
      → Covers raw total 0 cs
      → total * blk_sz ≤ length raw
      → All ChunkFits cs
      → verify_image (cut_image total cs stub)
        ≡ ok (record { total_blks = total; total_chunks = length cs })
  unfolding verify_image
  verify_image-cut raw covers within fit =
      let here =
        drop-length_append file_hdr_sz _ (cut_bytes cs stub)
          (length-packed little (sparse_fields blk_sz total (length cs))) in
      let (p, walks) =
        walk_chunks-Covers raw total 0 (cut_image total cs stub) stub (cursor file_hdr_sz 0 0)
          covers within fit here in
      rw (check_header-cut, walks) (ground arith)

module _ (given : Bytes) (few : blocks (pad_tail given) < 2 ^ 32)
    (gaps : HasGaps (pad_tail given)) where
  -- The header of the converted image.
  abbrev pub header : Header
  header = record {
    total_blks = blocks (pad_tail given);
    total_chunks = length (chunks_of (pad_tail given));
  }

  -- For an input of fewer than 2 ^ 32 blocks, with a zero block among any 2 ^ 20 in a row:
  -- `verify`'s tests on the image pass for a converted image, also when its last payload is
  -- missing or replaced by any bytes whatever.
  pub verify_image-cut_converted :
      (stub : Bytes)
      → verify_image (cut_image (blocks (pad_tail given)) (chunks_of (pad_tail given)) stub)
        ≡ ok header
  verify_image-cut_converted stub =
      let raw = pad_tail given in
      verify_image-cut (blocks raw) (chunks_of raw) stub (chunks-HeaderFits given few gaps) raw
        (chunks-Covers given few gaps) (omega (arith, blocks-mul given))
        (chunks-ChunkFits given few gaps)

  converted-cut :
      converted (pad_tail given)
      ≡ cut_image
          (blocks (pad_tail given))
          (chunks_of (pad_tail given))
          (last_payload (chunks_of (pad_tail given)))
  converted-cut =
      let cs = chunks_of (pad_tail given) in
      ap (λ b. packed little (sparse_fields blk_sz (blocks (pad_tail given)) (length cs)) ++ b)
        (chunks_bytes-cut_bytes cs)

  -- For such an input: after a conversion to another file, `verify` on that file and the input passes, changes no
  -- file, and prints one line on standard error.
  pub convert-verify :
      (raw_in simg_out : Text) (w : World)
      → w.files raw_in ≡ some given
      → text_eq raw_in simg_out ≡ false
      → (r : Converted) × (w' : World) × (convert raw_in simg_out w ≡ done r w')
        × (verify simg_out raw_in w'
            ≡ done tt (warned (verified_line simg_out header (length given) ∷ []) w'))
  convert-verify raw_in simg_out w there apart = (
    _,
    holding simg_out (converted (pad_tail given)) w,
    convert-converted given few gaps raw_in simg_out w there,
    unfold verify in
        rw (
          update_self w.files simg_out (converted (pad_tail given)),
          converted-cut,
          verify_image-cut_converted (last_payload (chunks_of (pad_tail given))),
          apart,
          there,
          sym (blocks-mul given) ∙ length-pad_tail given,
          ==_refl,
        ),
  )
