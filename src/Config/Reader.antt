-- ===== src/Config/Reader.antt =====
-- How the device reads the cache partition: a magic, a length and a digest, which has to be that of
-- the content.
use poly_firmware_build.Base.{
  ap₂, length-replicate, ℕ, ◌^◌, ◌<◌, ◌≡◌, refl, sym, ◌∙◌, ap, Option, none, some, [], ◌∷◌, ◌++◌,
  arith, if◌then◌else◌, Bytes, length, length-append, take, drop, slice, slice_middle, replicate,
  take-length_append, append_assoc, append-nil, text_eq, text_eq_refl,
}
use poly_firmware_build.Host.{ok}
use poly_firmware_build.Pack.{little, of_uint, uint}
use poly_firmware_build.Pack.RoundTrip.{pack-Fit, length-uint, of_uint-uint}
use poly_firmware_build.Config.{cfg_magic, bl_magic, bl_hdr_off, bl_img_off, blob_header}

-- The content at `at` whose header is at `hdr_off`.
unfoldable pub read_blob : (Bytes → Bytes) → Bytes → ℕ → ℕ → Bytes → Option Bytes
read_blob sha256 magic hdr_off at b =
    let h = drop hdr_off b in
    let content = take (of_uint little (slice h 8 12)) (drop at b) in
    if text_eq (take 8 h) magic
    then if text_eq (slice h 12 44) (sha256 content) then some content else none
    else none

abbrev pub read_config : (Bytes → Bytes) → Bytes → Option Bytes
read_config sha256 b = read_blob sha256 cfg_magic 0 64 b

abbrev pub read_bootloader : (Bytes → Bytes) → Bytes → Option Bytes
read_bootloader sha256 b = read_blob sha256 bl_magic bl_hdr_off bl_img_off b

module _ (sha256 : Bytes → Bytes) (digest : (b : Bytes) → length (sha256 b) ≡ 32) (magic : Bytes)
    (eight : length magic ≡ 8) (content : Bytes) (small : length content < 2 ^ 32) where
  abbrev size : Bytes
  size = uint little 4 (length content)

  abbrev pub header : Bytes
  header = magic ++ (size ++ (sha256 content ++ replicate 20 0))

  pub blob_header-header : blob_header sha256 magic content ≡ ok header
  blob_header-header =
      rw (pack-Fit little ((4, length content) ∷ []) (omega arith), append-nil size)

  pub length-header : length header ≡ 64
  length-header = omega (
    arith,
    length-append magic (size ++ (sha256 content ++ replicate 20 0)),
    length-append size (sha256 content ++ replicate 20 0),
    length-append (sha256 content) (replicate 20 0),
    length-uint little 4 (length content),
    digest content,
    length-replicate {A = ℕ} 20 0,
  )

  -- A header in its place, and the content in its own, are read.
  pub read_blob-header :
      (hdr_off at : ℕ) (b rest more : Bytes)
      → drop hdr_off b ≡ header ++ rest
      → drop at b ≡ content ++ more
      → read_blob sha256 magic hdr_off at b ≡ some content
  unfolding read_blob
  read_blob-header hdr_off at b rest more there here =
      let zeros : Bytes = replicate 20 0 in
      let flat : header ++ rest ≡ magic ++ (size ++ (sha256 content ++ (zeros ++ rest))) =
        simp append_assoc refl in
      let the_size : slice (drop hdr_off b) 8 12 ≡ size =
        ap (λ h. slice h 8 12) (there ∙ flat)
        ∙ slice_middle 8 12 magic size (sha256 content ++ (zeros ++ rest)) eight
            (omega (arith, length-uint little 4 (length content))) in
      let the_digest : slice (drop hdr_off b) 12 44 ≡ sha256 content =
        ap (λ h. slice h 12 44)
          (there ∙ flat ∙ sym (append_assoc magic size (sha256 content ++ (zeros ++ rest))))
        ∙ slice_middle 12 44 (magic ++ size) (sha256 content) (zeros ++ rest)
            (omega (arith, length-append magic size, eight, length-uint little 4 (length content)))
            (omega (arith, digest content)) in
      let the_magic : take 8 (drop hdr_off b) ≡ magic =
        ap (take 8) (there ∙ flat) ∙ take-length_append 8 magic _ eight in
      let the_content : take (of_uint little (slice (drop hdr_off b) 8 12)) (drop at b) ≡ content =
        ap₂ take (ap (of_uint little) the_size ∙ of_uint-uint little 4 (length content) small) here
        ∙ take-length_append (length content) content more refl in
      rw (the_content, the_magic, the_digest, text_eq_refl magic, text_eq_refl (sha256 content))
