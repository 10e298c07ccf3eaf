-- ===== src/Initramfs/Main.antt =====
-- What `main` writes.
use poly_firmware_build.Base.{
  ◌^◌, ◌<◌, ◌≡◌, refl, true, Option, some, [], ◌∷◌, ◌++◌, Bytes, Text, codes, length, take, slice,
  text_eq,
}
use poly_firmware_build.Host.{World, done, holding}
use poly_firmware_build.Initramfs.{archive, check_inputs, main, summary}
use poly_firmware_build.Initramfs.Newc.{read_archive}
use poly_firmware_build.Initramfs.Listing.{listing, read_archive-archive}

-- The two files are what `main` asks for, and small enough for the archive's size fields.
pub record IsAccepted (init busybox : Bytes) : Type 0 where
  pub script : text_eq (take 2 init) (codes "#!") ≡ true
  pub elf : text_eq (take 4 busybox) (0x7f ∷ codes "ELF") ≡ true
  pub aarch64 : text_eq (slice busybox 18 20) (183 ∷ 0 ∷ []) ≡ true
  pub init_fits : length init < 2 ^ 32
  pub busybox_fits : length busybox < 2 ^ 32

-- The world that `main` leaves.
abbrev pub packed : (Bytes → Bytes) → Bytes → Bytes → Text → World → World
packed gzip init busybox out w =
    let cpio = archive init busybox in
    record (holding out (gzip cpio) w) { stdout = w.stdout ++ summary cpio out (gzip cpio) ∷ [] }

pub main-packed :
    (gzip : Bytes → Bytes) (init busybox : Bytes) (init_path busybox_path out : Text) (w : World)
    → IsAccepted init busybox
    → w.files init_path ≡ some init
    → w.files busybox_path ≡ some busybox
    → main gzip init_path busybox_path out w ≡ done tt (packed gzip init busybox out w)
unfolding main check_inputs
main-packed gzip init busybox init_path busybox_path out w good first second =
    rw (first, second, good.script, good.elf, good.aarch64)

module _ (gzip : Bytes → Bytes) (gunzip : Bytes → Option Bytes)
    (inverse : (b : Bytes) → gunzip (gzip b) ≡ some b) where
  -- With a decompressor that undoes `gzip`: on a script and an aarch64 ELF file below 4 GiB, `main`
  -- writes one file, which decompressed is an archive of exactly the nine directories, the two
  -- devices and the two files with their contents and modes.
  pub main-read_archive :
      (init busybox : Bytes) (init_path busybox_path out : Text) (w : World)
      → IsAccepted init busybox
      → w.files init_path ≡ some init
      → w.files busybox_path ≡ some busybox
      → (payload cpio : Bytes) × (w' : World) × (main gzip init_path busybox_path out w
          ≡ done tt w')
        × (w'.files ≡ (holding out payload w).files)
        × (gunzip payload ≡ some cpio)
        × (read_archive 14 cpio ≡ some (listing init busybox))
  main-read_archive init busybox init_path busybox_path out w good first second =
      let cpio = archive init busybox in
      (
        gzip cpio,
        cpio,
        packed gzip init busybox out w,
        main-packed gzip init busybox init_path busybox_path out w good first second,
        refl,
        inverse cpio,
        read_archive-archive init busybox good.init_fits good.busybox_fits,
      )
