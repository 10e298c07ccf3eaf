-- ===== src/Tests/Build.antt =====
-- The ramdisk of the tests of mkinitramfs.py in a boot image of the tests of mkbootimg.py.
use poly_firmware_build.Pack.{uint}
use poly_firmware_build.Dtbo.{fdt_magic}
use poly_firmware_build.Build.Slots.{IsFound, carry_out-macro-IsFound}
use poly_firmware_build.Build.Macro.{slot_a, macro_of, commands, carry_out, Booted}
use poly_firmware_build.Dtbo.Layout.{dtbo_image, build-dtbo_image}
use poly_firmware_build.Base.{
  ◌∷◌, ◌+◌, ◌*◌, ◌-◌, ◌++◌, sym, ◌∙◌, append-nil, drop-length_append, drop_more, ℕ, ◌^◌, ◌≡◌, refl,
  true, none, some, [], arith, Bytes, codes, text_eq, drop, hex8, hex_onto, hex_digit, replicate,
  length-replicate, if◌then◌else◌, ltb, ltb→lt, length,
}
use poly_firmware_build.Host.{World, ◌>>◌, done, holding}
use poly_firmware_build.Initramfs
use poly_firmware_build.Initramfs.{archive, entry, pad4, hex_fields, trailer}
use poly_firmware_build.Initramfs.Newc.{read_archive}
use poly_firmware_build.Initramfs.Listing.{listing}
use poly_firmware_build.Boot
use poly_firmware_build.Boot.{Namespace}
use poly_firmware_build.Boot.Loader.{Loaded, load_image}
use poly_firmware_build.Boot.Layout.{image, boot_image-image, IsBootable}
use poly_firmware_build.Config
use poly_firmware_build.Host.Writes.{Writes}
use poly_firmware_build.Build.Refusal.{main-Writes}
use poly_firmware_build.Build.Ramdisk.{IsFollowing, main-main-load_image}
use poly_firmware_build.Tests.Initramfs.{script, busybox, gzip, gunzip, accepted}
use poly_firmware_build.Tests.Boot.{tree, bootable, namespace, kernel, sha1}

abbrev pub with_ramdisk : Namespace
with_ramdisk = record namespace { ramdisk = some (codes "ramdisk"); second = none }

abbrev world : World
world = record {
  files = λ p.
      if text_eq p (codes "init")
      then some script
      else if text_eq p (codes "busybox")
      then some busybox
      else if text_eq p (codes "Image")
      then some kernel
      else none;
  stdout = [];
  stderr = [];
}

follows : IsFollowing with_ramdisk (codes "ramdisk")
unfolding text_eq
follows = record {
  version = refl;
  takes_ramdisk = refl;
  no_second = refl;
  kernel_path = tt;
  out_path = tt;
  apart = refl;
}

archive_small : ltb (length (gzip (archive script busybox))) (2 ^ 32) ≡ true
unfolding archive entry pad4 hex_fields trailer hex8 hex_onto hex_digit replicate
archive_small = refl

fits : IsBootable sha1 with_ramdisk kernel (gzip (archive script busybox)) []
fits = record {
  first_page = omega arith;
  page_fits = omega arith;
  kernel_fits = omega arith;
  ramdisk_fits = ltb→lt (length (gzip (archive script busybox))) (2 ^ 32) archive_small;
  second_fits = omega arith;
  cmdline_fits = omega arith;
  digest_fits = λ b. omega (arith, length-replicate {A = ℕ} 20 0);
}

world-init : world.files (codes "init") ≡ some script
unfolding text_eq
world-init = refl

world-busybox : world.files (codes "busybox") ≡ some busybox
unfolding text_eq
world-busybox = refl

world-kernel : world.files (codes "Image") ≡ some kernel
unfolding text_eq
world-kernel = refl

main-main-load_image_example :
    (ramdisk img cpio : Bytes) × (l : Loaded) × (w' : World) × ((Initramfs.main gzip
            (codes "init")
            (codes "busybox")
            (codes "ramdisk")
          >> Boot.main sha1 with_ramdisk)
        world
      ≡ done tt w')
    × (w'.files ≡ (holding (codes "boot.img") img (holding (codes "ramdisk") ramdisk world)).files)
    × (load_image img ≡ some l)
    × (l.kernel ≡ kernel)
    × (l.ramdisk ≡ ramdisk)
    × (gunzip ramdisk ≡ some cpio)
    × (read_archive 14 cpio ≡ some (listing script busybox))
main-main-load_image_example =
    main-main-load_image gzip gunzip (λ b. refl) sha1 script busybox kernel (codes "init")
      (codes "busybox") (codes "ramdisk") with_ramdisk world accepted follows fits world-init
      world-busybox world-kernel

abbrev fdt : Bytes
fdt = fdt_magic ++ codes "tree"

abbrev dtbo : Bytes
dtbo = dtbo_image fdt (omega arith)

abbrev gap : Bytes
gap = replicate (0x4000 * 512 - length dtbo) 0

abbrev boot : Bytes
boot = image sha1 namespace kernel [] tree bootable

-- A disk that ends with the boot image in `boot_a`, and nothing before the DTBO image in `dtbo_a`.
abbrev disk : Bytes
disk = replicate (0x4000 * 512) 0 ++ (dtbo ++ (gap ++ boot))

disk-dtbo : drop (0x4000 * 512) disk ≡ dtbo ++ (gap ++ boot)
disk-dtbo = drop-length_append (0x4000 * 512) _ _ (length-replicate (0x4000 * 512) 0)

disk-boot : drop (0x8000 * 512) disk ≡ boot ++ []
unfolding uint
disk-boot =
    drop_more (0x4000 * 512 + length dtbo) (0x4000 * 512 - length dtbo) disk gap boot
      (drop_more (0x4000 * 512) (length dtbo) disk dtbo (gap ++ boot) disk-dtbo refl)
      (length-replicate (0x4000 * 512 - length dtbo) 0)
    ∙ sym (append-nil boot)

carry_out-macro-IsFound_example :
    (m : Booted) × (carry_out (commands (macro_of slot_a)) disk [] ≡ some m) × IsFound kernel fdt m
carry_out-macro-IsFound_example =
    carry_out-macro-IsFound sha1 namespace kernel [] tree fdt bootable slot_a disk boot dtbo []
      (gap ++ boot) refl (boot_image-image sha1 namespace kernel [] tree bootable)
      (build-dtbo_image fdt (omega arith)) disk-boot disk-dtbo (omega arith) (omega arith)

main-Writes_example :
    Writes
      (codes "ramdisk")
      world
      (Initramfs.main gzip (codes "init") (codes "none") (codes "ramdisk") world)
    × Writes (codes "boot.img") world (Boot.main sha1 with_ramdisk world)
    × Writes
        (codes "cache.img")
        world
        (Config.main sha1 (codes "mkconfigblob.py" ∷ codes "cache.img" ∷ codes "A=1" ∷ []) world)
main-Writes_example =
    main-Writes gzip sha1 sha1 world (codes "init") (codes "none") (codes "ramdisk") with_ramdisk
      (codes "mkconfigblob.py") (codes "cache.img") (codes "A=1" ∷ [])
