-- ===== src/Config/Written.antt =====
-- What `main` writes, as the device reads it.
use poly_firmware_build.Base.{
  ℕ, ◌+◌, ◌^◌, ◌≤◌, ◌<◌, ◌≡◌, refl, sym, ◌∙◌, ap, none, some, List, [], ◌∷◌, ◌++◌, arith, Bytes,
  Text, length, length-append, drop, append_assoc, append-nil, drop-length_append, utf8,
}
use poly_firmware_build.Host.{World, ok, done, holding, message}
use poly_firmware_build.Config.{
  cfg_magic, bl_magic, bl_hdr_off, bl_img_off, config_text, cfg_blob, cache_image, take_bootloader,
  take_lines, main,
}
use poly_firmware_build.Config.Reader.{
  read_config, read_bootloader, header, blob_header-header, length-header, read_blob-header,
}
use poly_firmware_build.Config.Layout.{buf, buf-header, buf-image, buf-config}

drop-zero : (b : Bytes) → drop 0 b ≡ b
unfolding drop
drop-zero b = refl

module _ (sha256 : Bytes → Bytes) (digest : (b : Bytes) → length (sha256 b) ≡ 32)
    (lines : List Text) (payload : Bytes) (encoded : utf8 (config_text lines) ≡ some payload)
    (small : length payload < 2 ^ 32) where
  abbrev pub cfg : Bytes
  cfg = header sha256 digest cfg_magic refl payload small ++ payload

  cfg_blob-cfg : cfg_blob sha256 lines ≡ ok cfg
  unfolding cfg_blob
  cfg_blob-cfg = rw (encoded, blob_header-header sha256 digest cfg_magic refl payload small)

  length-cfg : length cfg ≡ 64 + length payload
  length-cfg = omega (
    arith,
    length-append (header sha256 digest cfg_magic refl payload small) payload,
    length-header sha256 digest cfg_magic refl payload small,
  )

  read_config-cfg : (rest : Bytes) → read_config sha256 (cfg ++ rest) ≡ some payload
  read_config-cfg rest =
      let hdr = header sha256 digest cfg_magic refl payload small in
      let flat = append_assoc hdr payload rest in
      read_blob-header sha256 digest cfg_magic refl payload small 0 64 (cfg ++ rest)
        (payload ++ rest) rest (drop-zero (cfg ++ rest) ∙ flat)
        (ap (drop 64) flat
          ∙ drop-length_append 64 hdr (payload ++ rest)
              (length-header sha256 digest cfg_magic refl payload small))

  -- What `main` leaves where no bootloader is asked for.
  abbrev pub with_cfg : Text → World → World
  with_cfg out w = record (holding out cfg w) {
    stdout = w.stdout ++ message "wrote {}: config blob {} B" (length cfg ∷ []) (out ∷ []) ∷ [];
  }

  pub main-with_cfg :
      (name out a : Text) (args : List Text) (w : World) (rest : List Text)
      → take_bootloader (a ∷ args) ≡ ok (record { bootloader = none; rest = rest })
      → take_lines rest w ≡ done lines w
      → main sha256 (name ∷ out ∷ a ∷ args) w ≡ done tt (with_cfg out w)
  unfolding main
  main-with_cfg name out a args w rest no_bootloader given =
      rw (no_bootloader, given, cfg_blob-cfg) refl

  pub read_config-alone : read_config sha256 cfg ≡ some payload
  read_config-alone = ap (read_config sha256) (sym (append-nil cfg)) ∙ read_config-cfg []

  -- A configuration of encodable lines below 4 GiB, with no bootloader asked for: `main` writes one
  -- file, in which the device finds exactly the configuration's text.
  pub main-read_config :
      (name out a : Text) (args : List Text) (w : World) (rest : List Text)
      → take_bootloader (a ∷ args) ≡ ok (record { bootloader = none; rest = rest })
      → take_lines rest w ≡ done lines w
      → (b : Bytes) × (w' : World) × (main sha256 (name ∷ out ∷ a ∷ args) w ≡ done tt w')
        × (w'.files ≡ (holding out b w).files)
        × (read_config sha256 b ≡ some payload)
  main-read_config name out a args w rest no_bootloader given = (
    cfg,
    with_cfg out w,
    main-with_cfg name out a args w rest no_bootloader given,
    refl,
    read_config-alone,
  )

  module _ (image : Bytes) (image_small : length image < 2 ^ 32) where
    abbrev bl_hdr : Bytes
    bl_hdr = header sha256 digest bl_magic refl image image_small

    abbrev whole : Bytes
    whole = buf cfg bl_hdr image (length-header sha256 digest bl_magic refl image image_small)

    cache_image-whole : cache_image sha256 cfg image ≡ ok whole
    unfolding cache_image
    cache_image-whole = rw (blob_header-header sha256 digest bl_magic refl image image_small)

    read_bootloader-whole : read_bootloader sha256 whole ≡ some image
    read_bootloader-whole =
        let sixty_four = length-header sha256 digest bl_magic refl image image_small in
        read_blob-header sha256 digest bl_magic refl image image_small bl_hdr_off bl_img_off whole _
          _ (buf-header cfg bl_hdr image sixty_four) (buf-image cfg bl_hdr image sixty_four)

    read_config-whole : 64 + length payload ≤ bl_hdr_off → read_config sha256 whole ≡ some payload
    read_config-whole fits =
        ap (read_config sha256) (
          buf-config cfg bl_hdr image (length-header sha256 digest bl_magic refl image image_small)
            (omega (arith, length-cfg)))
        ∙ read_config-cfg _

    -- A configuration of encodable lines below 4 GiB, and a bootloader below 4 GiB that is there under
    -- a path that is not empty: `main` writes one file, in which the device finds the bootloader, and
    -- it finds the configuration's text where header and text are at most 1 MiB.
    pub main-read_bootloader :
        (name out a : Text) (args : List Text) (w : World) (rest : List Text) (c : ℕ) (path : Text)
        → take_bootloader (a ∷ args) ≡ ok (record { bootloader = some (c ∷ path); rest = rest })
        → take_lines rest w ≡ done lines w
        → w.files (c ∷ path) ≡ some image
        → (b : Bytes) × (w' : World) × (main sha256 (name ∷ out ∷ a ∷ args) w ≡ done tt w')
          × (w'.files ≡ (holding out b w).files)
          × (read_bootloader sha256 b ≡ some image)
          × (64 + length payload ≤ bl_hdr_off → read_config sha256 b ≡ some payload)
    unfolding main
    main-read_bootloader name out a args w rest c path bootloader given there = (
      whole,
      record (holding out whole w) {
        stdout =
            w.stdout
            ++ message "wrote {}: config {} B + bootloader {} B (cache image {} B)"
                (length cfg ∷ length image ∷ length whole ∷ []) (out ∷ [])
              ∷ [];
      },
      rw (bootloader, given, cfg_blob-cfg, there, cache_image-whole),
      refl,
      read_bootloader-whole,
      read_config-whole,
    )
