-- ===== src/Boot/Layout.antt =====
-- Where the parts lie in the image that `boot_image` makes.
use poly_firmware_build.Base.{
  ℕ, ◌+◌, ◌^◌, ◌≤◌, ◌<◌, ◌≡◌, refl, ◌∙◌, ap, ap₂, [], ◌∷◌, ◌++◌, arith, Bytes, codes, length, take,
  drop, ljust, replicate, length-append, length-replicate, length-ljust, length-take, length-drop,
  take-length_append, drop-length_append, drop_more,
}
use poly_firmware_build.Host.{ok}
use poly_firmware_build.Pack.{little}
use poly_firmware_build.Pack.RoundTrip.{length-packed}
use poly_firmware_build.Boot.{words, Namespace, digest_input, header_words, header, boot_image}
use poly_firmware_build.Boot.Loader.{up}
use poly_firmware_build.Boot.Parts.{
  ljust-split, zeros_after, pad_total, pad_part_total, length-zeros_after, up_first, word_fields,
  words-packed, flatten,
}

-- The inputs that the format can hold: the header is at most a page, the sizes and the page size
-- are 32-bit, the command line fits its fields, and the digest its field.
pub record IsBootable (sha1 : Bytes → Bytes) (a : Namespace) (kernel ramdisk second : Bytes)
    : Type 0 where
  pub first_page : 1632 ≤ a.pagesize
  pub page_fits : a.pagesize < 2 ^ 32
  pub kernel_fits : length kernel < 2 ^ 32
  pub ramdisk_fits : length ramdisk < 2 ^ 32
  pub second_fits : length second < 2 ^ 32
  pub cmdline_fits : length a.cmdline ≤ 1536
  pub digest_fits : (b : Bytes) → length (sha1 b) ≤ 32

module _ (sha1 : Bytes → Bytes) (a : Namespace) (kernel ramdisk second : Bytes)
    (good : IsBootable sha1 a kernel ramdisk second) where
  abbrev numbers : Bytes
  numbers = words (header_words a kernel ramdisk second)

  abbrev cmd : Bytes
  cmd = ljust 512 0 (take 512 a.cmdline)

  abbrev id : Bytes
  id = ljust 32 0 (sha1 (digest_input (kernel ∷ ramdisk ∷ second ∷ [])))

  abbrev extra : Bytes
  extra = ljust 1024 0 (drop 512 a.cmdline)

  abbrev pub image : Bytes
  image =
      codes "ANDROID!"
      ++ (numbers
          ++ (replicate 16 0
              ++ (cmd
                  ++ (id
                      ++ (extra
                          ++ (zeros_after a.pagesize (header sha1 a kernel ramdisk second)
                              ++ (kernel
                                  ++ (zeros_after a.pagesize kernel
                                      ++ (ramdisk
                                          ++ (zeros_after a.pagesize ramdisk
                                              ++ (second ++ zeros_after a.pagesize second)))))))))))

  pub boot_image-image : boot_image sha1 a kernel ramdisk second ≡ ok image
  unfolding boot_image header
  boot_image-image =
      let page = a.pagesize in
      let positive : 0 < page = omega (arith, good.first_page) in
      rw
        (
          pad_total page positive (header sha1 a kernel ramdisk second),
          pad_total page positive kernel,
          pad_part_total page positive ramdisk,
          pad_part_total page positive second,
        )
        (ap ok (
          flatten (codes "ANDROID!") numbers (replicate 16 0) cmd id extra
            (zeros_after page (header sha1 a kernel ramdisk second)) kernel
            (zeros_after page kernel) ramdisk (zeros_after page ramdisk) second
            (zeros_after page second)))

  length-numbers : length numbers ≡ 40
  length-numbers =
      ap length (words-packed (header_words a kernel ramdisk second))
      ∙ length-packed little (word_fields (header_words a kernel ramdisk second))

  length-cmd : length cmd ≡ 512
  length-cmd = length-ljust 512 0 (take 512 a.cmdline) (omega (arith, length-take 512 a.cmdline))

  length-id : length id ≡ 32
  length-id =
      length-ljust 32 0 (sha1 (digest_input (kernel ∷ ramdisk ∷ second ∷ []))) (good.digest_fits _)

  length-extra : length extra ≡ 1024
  length-extra =
      length-ljust 1024 0 (drop 512 a.cmdline)
        (omega (arith, length-drop 512 a.cmdline, good.cmdline_fits))

  length-header : length (header sha1 a kernel ramdisk second) ≡ 1632
  unfolding header
  length-header = omega (
    arith,
    length-append numbers (replicate 16 0 ++ (cmd ++ (id ++ extra))),
    length-append (replicate {A = ℕ} 16 0) (cmd ++ (id ++ extra)),
    length-append cmd (id ++ extra),
    length-append id extra,
    length-replicate {A = ℕ} 16 0,
    length-numbers,
    length-cmd,
    length-id,
    length-extra,
  )

  abbrev from_second : Bytes
  from_second = second ++ zeros_after a.pagesize second

  abbrev from_ramdisk : Bytes
  from_ramdisk = ramdisk ++ (zeros_after a.pagesize ramdisk ++ from_second)

  abbrev pub from_kernel : Bytes
  from_kernel = kernel ++ (zeros_after a.pagesize kernel ++ from_ramdisk)

  abbrev header_gap : Bytes
  header_gap = zeros_after a.pagesize (header sha1 a kernel ramdisk second)

  abbrev from_extra : Bytes
  from_extra = extra ++ (header_gap ++ from_kernel)

  abbrev from_cmd : Bytes
  from_cmd = cmd ++ (id ++ from_extra)

  at_numbers : drop 8 image ≡ numbers ++ (replicate 16 0 ++ from_cmd)
  at_numbers = drop-length_append 8 (codes "ANDROID!") _ refl

  at_cmd : drop 64 image ≡ from_cmd
  at_cmd =
      drop_more 48 16 image (replicate 16 0) from_cmd
        (drop_more 8 40 image numbers (replicate 16 0 ++ from_cmd) at_numbers length-numbers)
        (length-replicate 16 0)

  at_extra : drop 608 image ≡ from_extra
  at_extra =
      drop_more 576 32 image id from_extra
        (drop_more 64 512 image cmd (id ++ from_extra) at_cmd length-cmd) length-id

  pub at_kernel : drop a.pagesize image ≡ from_kernel
  at_kernel =
      let hdr = header sha1 a kernel ramdisk second in
      let first : a.pagesize ≡ 1632 + length header_gap = omega (
        arith,
        length-header,
        length-zeros_after a.pagesize (omega (arith, good.first_page)) hdr,
        ap (up a.pagesize) length-header,
        up_first 1632 a.pagesize (omega arith) good.first_page,
      ) in
      ap (λ n. drop n image) first
      ∙ drop_more 1632 (length header_gap) image header_gap from_kernel
          (drop_more 608 1024 image extra (header_gap ++ from_kernel) at_extra length-extra) refl

  -- From the place of one part to the place of the next.
  next_part :
      (start : ℕ) (part rest : Bytes)
      → drop start image ≡ part ++ (zeros_after a.pagesize part ++ rest)
      → drop (start + up a.pagesize (length part)) image ≡ rest
  next_part start part rest here =
      let gap = zeros_after a.pagesize part in
      ap (λ n. drop n image)
        (omega (arith, length-zeros_after a.pagesize (omega (arith, good.first_page)) part))
      ∙ drop_more (start + length part) (length gap) image gap rest
          (drop_more start (length part) image part (gap ++ rest) here refl) refl

  at_ramdisk : drop (a.pagesize + up a.pagesize (length kernel)) image ≡ from_ramdisk
  at_ramdisk = next_part a.pagesize kernel from_ramdisk at_kernel

  at_second :
      drop (a.pagesize + up a.pagesize (length kernel) + up a.pagesize (length ramdisk)) image
      ≡ from_second
  at_second = next_part (a.pagesize + up a.pagesize (length kernel)) ramdisk from_second at_ramdisk

  -- What is read at these places.
  pub magic_first : take 8 image ≡ codes "ANDROID!"
  magic_first = take-length_append 8 (codes "ANDROID!") _ refl

  pub read_numbers : take 40 (drop 8 image) ≡ words (header_words a kernel ramdisk second)
  read_numbers =
      ap (take 40) at_numbers
      ∙ take-length_append 40 numbers (replicate 16 0 ++ from_cmd) length-numbers

  pub read_cmdline : take 512 (drop 64 image) ++ take 1024 (drop 608 image) ≡ ljust 1536 0 a.cmdline
  read_cmdline =
      ap₂ ◌++◌ (ap (take 512) at_cmd ∙ take-length_append 512 cmd (id ++ from_extra) length-cmd) (
        ap (take 1024) at_extra
        ∙ take-length_append 1024 extra (header_gap ++ from_kernel) length-extra)
      ∙ ljust-split a.cmdline good.cmdline_fits

  pub read_kernel : take (length kernel) (drop a.pagesize image) ≡ kernel
  read_kernel =
      ap (take (length kernel)) at_kernel
      ∙ take-length_append (length kernel) kernel (zeros_after a.pagesize kernel ++ from_ramdisk)
          refl

  pub read_ramdisk :
      take (length ramdisk) (drop (a.pagesize + up a.pagesize (length kernel)) image) ≡ ramdisk
  read_ramdisk =
      ap (take (length ramdisk)) at_ramdisk
      ∙ take-length_append (length ramdisk) ramdisk (zeros_after a.pagesize ramdisk ++ from_second)
          refl

  pub read_second :
      take
        (length second)
        (drop (a.pagesize + up a.pagesize (length kernel) + up a.pagesize (length ramdisk)) image)
      ≡ second
  read_second =
      ap (take (length second)) at_second
      ∙ take-length_append (length second) second (zeros_after a.pagesize second) refl
