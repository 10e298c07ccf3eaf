-- ===== src/Boot/Image.antt =====
-- The image that `main` writes, and what a boot loader finds in it.
use native.Mathlib.Nat.{mod-eq_of_lt}
use poly_firmware_build.Base.{
  lt→ltb_false, ◌+◌, ◌%◌, ◌^◌, ◌≡◌, refl, some, [], ◌∷◌, ◌++◌, arith, Bytes, codes, text_eq_refl,
  length, take, drop, ljust,
}
use poly_firmware_build.Host.{World, done, holding}
use poly_firmware_build.Pack.{little, unpack}
use poly_firmware_build.Pack.RoundTrip.{unpack-packed}
use poly_firmware_build.Boot.{Namespace, header_words, main, filedata, summary}
use poly_firmware_build.Boot.Loader.{Loaded, load_image}
use poly_firmware_build.Boot.Parts.{word_fields, words-packed}
use poly_firmware_build.Boot.Layout.{
  IsBootable, image, boot_image-image, magic_first, read_numbers, read_cmdline, read_kernel,
  read_ramdisk, read_second,
}

module _ (sha1 : Bytes → Bytes) (a : Namespace) (kernel ramdisk second : Bytes)
    (good : IsBootable sha1 a kernel ramdisk second) where
  abbrev pub loaded : Loaded
  loaded = record {
    kernel = kernel;
    ramdisk = ramdisk;
    second = second;
    kernel_addr = (a.base + a.kernel_offset) % 2 ^ 32;
    ramdisk_addr = (a.base + a.ramdisk_offset) % 2 ^ 32;
    second_addr = (a.base + a.second_offset) % 2 ^ 32;
    tags_addr = (a.base + a.tags_offset) % 2 ^ 32;
    cmdline = ljust 1536 0 a.cmdline;
  }

  abbrev whole : Bytes
  whole = image sha1 a kernel ramdisk second good

  unpack-numbers :
      unpack little (4 ∷ 4 ∷ 4 ∷ 4 ∷ 4 ∷ 4 ∷ 4 ∷ 4 ∷ 4 ∷ 4 ∷ []) (take 40 (drop 8 whole))
      ≡ some (
          length kernel
          ∷ loaded.kernel_addr
          ∷ length ramdisk
          ∷ loaded.ramdisk_addr
          ∷ length second
          ∷ loaded.second_addr
          ∷ loaded.tags_addr
          ∷ a.pagesize
          ∷ 0
          ∷ 0
          ∷ [])
  unpack-numbers =
      let fields = word_fields (header_words a kernel ramdisk second) in
      rw (
        read_numbers sha1 a kernel ramdisk second good,
        words-packed (header_words a kernel ramdisk second),
        unpack-packed little fields (omega arith),
        mod-eq_of_lt good.kernel_fits,
        mod-eq_of_lt good.ramdisk_fits,
        mod-eq_of_lt good.second_fits,
        mod-eq_of_lt good.page_fits,
      )

  load_image-image : load_image whole ≡ some loaded
  unfolding load_image
  load_image-image = rw (
    magic_first sha1 a kernel ramdisk second good,
    text_eq_refl (codes "ANDROID!"),
    unpack-numbers,
    load_image,
    read_kernel sha1 a kernel ramdisk second good,
    read_ramdisk sha1 a kernel ramdisk second good,
    read_second sha1 a kernel ramdisk second good,
    read_cmdline sha1 a kernel ramdisk second good,
  )

  -- With header version 0, readable parts and inputs that the format can hold, `main` writes one
  -- file, from which a boot loader takes the three parts, the four load addresses modulo 2 ^ 32 and
  -- the command line filled up with zeros.
  pub main-load_image :
      (w : World)
      → a.header_version ≡ 0
      → filedata (some a.kernel) w ≡ done kernel w
      → filedata a.ramdisk w ≡ done ramdisk w
      → filedata a.second w ≡ done second w
      → (img : Bytes) × (w' : World) × (main sha1 a w ≡ done tt w')
        × (w'.files ≡ (holding a.output img w).files)
        × (load_image img ≡ some loaded)
  unfolding main
  main-load_image w version first then_ramdisk then_second = (
    whole,
    record (holding a.output whole w) {
      stdout = w.stdout ++ summary a kernel ramdisk second whole ∷ [];
    },
    simp version (
        rw (
          first,
          then_ramdisk,
          then_second,
          lt→ltb_false (length a.cmdline) 1536 good.cmdline_fits,
          boot_image-image sha1 a kernel ramdisk second good,
        )),
    refl,
    load_image-image,
  )
