-- ===== src/Tests/Boot.antt =====
-- A boot image of a kernel and a device tree of a few bytes each.
use poly_firmware_build.Base.{
  ℕ, ◌≡◌, refl, none, some, [], arith, Bytes, codes, text_eq, replicate, length-replicate,
  if◌then◌else◌,
}
use poly_firmware_build.Host.{World, done, holding}
use poly_firmware_build.Boot.{Namespace, main, filedata}
use poly_firmware_build.Boot.Loader.{load_image}
use poly_firmware_build.Boot.Layout.{IsBootable}
use poly_firmware_build.Boot.Image.{loaded, main-load_image}

abbrev pub kernel : Bytes
kernel = codes "kernel"

abbrev pub tree : Bytes
tree = codes "tree"

abbrev pub namespace : Namespace
namespace = record {
  header_version = 0;
  kernel = codes "Image";
  ramdisk = none;
  second = some (codes "tc8.dtb");
  pagesize = 2048;
  base = 0x40000000;
  kernel_offset = 0x80000;
  ramdisk_offset = 0x1000000;
  second_offset = 0xf00000;
  tags_offset = 0x100;
  cmdline = codes "console=ttymxc0";
  output = codes "boot.img";
}

abbrev world : World
world = record {
  files = λ p.
      if text_eq p (codes "Image")
      then some kernel
      else if text_eq p (codes "tc8.dtb")
      then some tree
      else none;
  stdout = [];
  stderr = [];
}

-- A digest of twenty bytes.
abbrev pub sha1 : Bytes → Bytes
sha1 b = replicate 20 0

pub bootable : IsBootable sha1 namespace kernel [] tree
bootable = record {
  first_page = omega arith;
  page_fits = omega arith;
  kernel_fits = omega arith;
  ramdisk_fits = omega arith;
  second_fits = omega arith;
  cmdline_fits = omega arith;
  digest_fits = λ b. omega (arith, length-replicate {A = ℕ} 20 0);
}

world-kernel : filedata (some namespace.kernel) world ≡ done kernel world
unfolding text_eq
world-kernel = refl

world-second : filedata namespace.second world ≡ done tree world
unfolding text_eq
world-second = refl

main-load_image_example :
    (img : Bytes) × (w' : World) × (main sha1 namespace world ≡ done tt w')
    × (w'.files ≡ (holding (codes "boot.img") img world).files)
    × (load_image img ≡ some (loaded sha1 namespace kernel [] tree bootable))
main-load_image_example =
    main-load_image sha1 namespace kernel [] tree bootable world refl world-kernel refl world-second
