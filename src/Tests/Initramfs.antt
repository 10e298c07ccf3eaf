-- ===== src/Tests/Initramfs.antt =====
-- The ramdisk of a script of one line and a busybox that is little more than its ELF magic.
use poly_firmware_build.Base.{
  ◌≡◌, refl, none, Option, some, [], ◌∷◌, ◌++◌, arith, Bytes, codes, text_eq, take, drop,
  if◌then◌else◌, hex8, hex_onto, hex_digit, replicate,
}
use poly_firmware_build.Host.{World, done, holding}
use poly_firmware_build.Initramfs.{main, dir, new, entry, pad4, hex_fields}
use poly_firmware_build.Initramfs.Newc.{read_archive}
use poly_firmware_build.Initramfs.Listing.{listing}
use poly_firmware_build.Initramfs.Main.{IsAccepted, main-read_archive}

-- The entry of one empty directory.
first_dir :
    (dir (codes "dev") 0o755 new).blob
    ≡ codes "070701000002D1000041ED0000000000000000000000020000000000000000"
      ++ codes "000000000000000000000000000000000000000400000000dev"
      ++ 0 ∷ 0 ∷ 0 ∷ []
unfolding entry pad4 hex_fields hex8 hex_onto hex_digit replicate
first_dir = refl

abbrev pub script : Bytes
script = codes "#!/bin/busybox sh"

abbrev pub busybox : Bytes
busybox = 0x7f ∷ codes "ELF" ++ codes "0123456789abcd" ++ 183 ∷ 0 ∷ []

-- A compression that puts one byte in front, and its inverse.
abbrev pub gzip : Bytes → Bytes
gzip b = 0x1f ∷ b

abbrev pub gunzip : Bytes → Option Bytes
gunzip [] = none
gunzip (c ∷ b) = some b

abbrev world : World
world = record {
  files = λ p.
      if text_eq p (codes "init")
      then some script
      else if text_eq p (codes "busybox")
      then some busybox
      else none;
  stdout = [];
  stderr = [];
}

world-init : world.files (codes "init") ≡ some script
unfolding text_eq
world-init = refl

world-busybox : world.files (codes "busybox") ≡ some busybox
unfolding text_eq
world-busybox = refl

pub accepted : IsAccepted script busybox
unfolding text_eq take drop
accepted = record {
  script = refl;
  elf = refl;
  aarch64 = refl;
  init_fits = omega arith;
  busybox_fits = omega arith;
}

main-read_archive_example :
    (payload cpio : Bytes) × (w' : World) × (main gzip
        (codes "init")
        (codes "busybox")
        (codes "out")
        world
      ≡ done tt w')
    × (w'.files ≡ (holding (codes "out") payload world).files)
    × (gunzip payload ≡ some cpio)
    × (read_archive 14 cpio ≡ some (listing script busybox))
main-read_archive_example =
    main-read_archive gzip gunzip (λ b. refl) script busybox (codes "init") (codes "busybox")
      (codes "out") world accepted world-init world-busybox
