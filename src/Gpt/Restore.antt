-- ===== src/Gpt/Restore.antt =====
-- What flashing the restore image does.
use poly_firmware_build.Base.{
  ◌*◌, ◌≡◌, refl, sym, ◌∙◌, ap, true, some, [], ◌∷◌, ◌++◌, arith, Bytes, Text, codes, length, take,
  drop, drop_all, length-drop, slice, text_eq, append-nil, take-length_append, drop-length_append,
}
use poly_firmware_build.Host.{World, done, ok, holding}
use poly_firmware_build.Pack.{little}
use poly_firmware_build.Pack.RoundTrip.{packed, pack-Fit, length-packed, unpack-packed}
use poly_firmware_build.Sparse.Format.{sparse_fields, chunk_fields, file_hdr_sz}
use poly_firmware_build.Sparse.Flash.{flash, flash_chunks}
use poly_firmware_build.Sparse.Steps.{flash_chunks-raw, flash_chunks-skip}
use poly_firmware_build.Gpt.{
  sector, total_sectors, np, nb, ndc, raw, dont_care, check_primary, check_backup, restore_image,
  path_in, make_gpt_restore, summary,
}

-- The bytes of the image.
abbrev image : Bytes → Bytes → Bytes
image prim back =
    packed little (sparse_fields sector total_sectors 3)
    ++ (packed little (chunk_fields raw np (length prim))
        ++ (prim
            ++ (packed little (chunk_fields dont_care ndc 0)
                ++ (packed little (chunk_fields raw nb (length back)) ++ back))))

module _ (prim back : Bytes) (prim_size : length prim ≡ np * sector)
    (back_size : length back ≡ nb * sector) where
  restore_image-image : restore_image prim back ≡ ok (image prim back)
  unfolding restore_image
  restore_image-image = rw (
    pack-Fit little (sparse_fields sector total_sectors 3) (omega arith),
    pack-Fit little (chunk_fields raw np (length prim)) (omega arith),
    pack-Fit little (chunk_fields dont_care ndc 0) (omega arith),
    pack-Fit little (chunk_fields raw nb (length back)) (omega arith),
  )

  flash_chunks-back :
      (disk : Bytes)
      → length disk ≡ nb * sector
      → flash_chunks sector 1 (packed little (chunk_fields raw nb (length back)) ++ back) disk
        ≡ some back
  unfolding flash_chunks
  flash_chunks-back disk size =
      ap (λ b. flash_chunks sector 1 (packed little (chunk_fields raw nb (length back)) ++ b) disk)
        (sym (append-nil back))
      ∙ flash_chunks-raw sector nb 0 back [] disk (omega arith) back_size
      ∙ rw (drop_all (nb * sector) disk (omega arith)) (ap some (append-nil back))

  -- The tables with the middle of the disk between them.
  abbrev restored : Bytes → Bytes
  restored disk = prim ++ (take (ndc * sector) (drop (np * sector) disk) ++ back)

  flash-image :
      (disk : Bytes)
      → length disk ≡ total_sectors * sector
      → flash (image prim back) disk ≡ some (restored disk)
  unfolding flash
  flash-image disk size =
      let middle = drop (np * sector) disk in
      let end = drop (ndc * sector) middle in
      let end_size : length end ≡ nb * sector =
        omega (arith, length-drop (ndc * sector) middle, length-drop (np * sector) disk) in
      rw (
        take-length_append file_hdr_sz _ _
            (length-packed little (sparse_fields sector total_sectors 3)),
        unpack-packed little (sparse_fields sector total_sectors 3) (omega arith),
        flash,
        size,
        drop-length_append file_hdr_sz _ _
            (length-packed little (sparse_fields sector total_sectors 3)),
        flash_chunks-raw sector np 2 prim _ disk (omega arith) prim_size,
        flash_chunks-skip sector ndc 1 _ middle (omega arith),
        flash_chunks-back end end_size,
      )

  primary_good : text_eq (slice prim 512 520) (codes "EFI PART") ≡ true → check_primary prim ≡ ok tt
  unfolding check_primary
  primary_good signed = rw (prim_size, signed)

  backup_good : check_backup back ≡ ok tt
  unfolding check_backup
  backup_good = rw back_size

  -- With a primary table of 34 sectors that has the GPT signature and a backup of 33, the script
  -- writes one file, an image that, flashed to a disk of 30535680 sectors, gives the primary table,
  -- the disk's own sectors 34 up to the last 33, and the backup table.
  pub make_gpt_restore-flash :
      (here : Text) (w : World)
      → text_eq (slice prim 512 520) (codes "EFI PART") ≡ true
      → w.files (path_in here (codes "gpt-primary.bin")) ≡ some prim
      → w.files (path_in here (codes "gpt-backup.bin")) ≡ some back
      → (img : Bytes) × (w' : World) × (make_gpt_restore here w ≡ done tt w')
        × (w'.files ≡ (holding (path_in here (codes "tc8-gpt-restore.simg")) img w).files)
        × ((disk : Bytes)
            → length disk ≡ total_sectors * sector
            → flash img disk
              ≡ some (prim ++ (take (ndc * sector) (drop (np * sector) disk) ++ back)))
  unfolding make_gpt_restore
  make_gpt_restore-flash here w signed first second = (
    image prim back,
    (let out = path_in here (codes "tc8-gpt-restore.simg") in
        record (holding out (image prim back) w) {
          stdout = w.stdout ++ summary out (image prim back) ∷ [];
        }),
    rw (first, second, primary_good signed, backup_good, restore_image-image),
    refl,
    flash-image,
  )
