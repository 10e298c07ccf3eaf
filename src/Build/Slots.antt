-- ===== src/Build/Slots.antt =====
-- What the boot macros of tools/uboot_env_edit.py find where the images of tools/mkbootimg.py and
-- tools/mkdtboimg.py are on the disk.
use poly_firmware_build.Pack.{uint}
use poly_firmware_build.Base.{
  append-nil, take-append-drop, append_assoc, ℕ, zero, suc, ◌+◌, ◌*◌, ◌≤◌, ◌<◌, ◌^◌, ◌≡◌, refl, sym,
  ◌∙◌, ap, false, some, [], ◌∷◌, ◌++◌, arith, Bytes, text_eq, length, take, drop, slice,
  length-append, length-drop, drop-drop, take-take, drop-append_le, take-length_append,
}
use poly_firmware_build.Host.{ok}
use poly_firmware_build.Env.Slots.{boot_len, dtbo_len}
use poly_firmware_build.Boot.{Namespace, boot_image}
use poly_firmware_build.Boot.Layout.{IsBootable, image, boot_image-image, at_kernel}
use poly_firmware_build.Dtbo.{dt_offset, build, fdt_magic}
use poly_firmware_build.Dtbo.Layout.{dtbo_image, build-dtbo_image, drop-dtbo_image}
use poly_firmware_build.Build.Macro.{
  Slot, Booted, commands, carry_out, macro_of, boot_lba, dtbo_lba, sectors, carry_out-macro,
}

take-drop-take :
    (n k b : ℕ) (xs : Bytes) → k + n ≤ b → take n (drop k (take b xs)) ≡ take n (drop k xs)
unfolding take drop
take-drop-take n zero b xs h = take-take n b xs (omega arith)
take-drop-take n (suc k) zero xs h = absurd (omega arith)
take-drop-take n (suc k) (suc b) [] h = refl
take-drop-take n (suc k) (suc b) (x ∷ xs) h = take-drop-take n k b xs (omega arith)

-- Where a partition begins with an image, a part of the image is found in what is read of it.
found_in_read :
    (p a b : ℕ) (disk img rest part others : Bytes)
    → drop a disk ≡ img ++ rest
    → drop p img ≡ part ++ others
    → a + p + length part ≤ b
    → take (length part) (drop p (slice disk a b)) ≡ part
found_in_read p a b disk img rest [] others here there room = unfold take in refl
found_in_read p a b disk img rest (c ∷ cs) others here there room =
    let part = c ∷ cs in
    let inside : p ≤ length img =
      omega (arith, length-drop p img, ap length there, length-append part others) in
    let at_part : drop (a + p) disk ≡ part ++ (others ++ rest) =
      sym (drop-drop a p disk)
      ∙ ap (drop p) here
      ∙ drop-append_le p img rest inside
      ∙ ap (λ b. b ++ rest) there
      ∙ append_assoc part others rest in
    ap (take (length part)) (drop-drop a p (take b disk))
    ∙ take-drop-take (length part) (a + p) b disk room
    ∙ ap (take (length part)) at_part
    ∙ take-length_append (length part) part (others ++ rest) refl

drop_zero : (b : Bytes) → drop 0 b ≡ b
unfolding drop
drop_zero b = refl

-- The magic of a DTBO table.
abbrev table_magic : Bytes
table_magic = 0xd7 ∷ 0xb7 ∷ 0xab ∷ 0x1e ∷ []

take-dtbo_image :
    (dtb : Bytes) (fits : dt_offset + length dtb < 2 ^ 32)
    → take 4 (dtbo_image dtb fits) ≡ table_magic
unfolding take uint
take-dtbo_image dtb fits = refl

table_first :
    (dtb : Bytes) (fits : dt_offset + length dtb < 2 ^ 32) (a b : ℕ) (disk rest : Bytes)
    → drop a disk ≡ dtbo_image dtb fits ++ rest
    → a + 4 ≤ b
    → take 4 (slice disk a b) ≡ table_magic
table_first dtb fits a b disk rest here room =
    let packed = dtbo_image dtb fits in
    ap (take 4) (sym (drop_zero (slice disk a b)))
    ∙ found_in_read 0 a b disk packed rest table_magic (drop 4 packed) here
        (drop_zero packed
          ∙ sym (take-append-drop 4 packed)
          ∙ ap (λ b. b ++ drop 4 packed) (take-dtbo_image dtb fits))
        (omega arith)

-- What memory holds at the two addresses, in either slot.
pub record IsFound (kernel dtb : Bytes) (m : Booted) : Type 0 where
  pub kernel_found : take (length kernel) m.kernel_at ≡ kernel
  pub tree_found : take (length dtb) (drop dt_offset m.fdt_at) ≡ dtb
  pub not_a_tree : text_eq (take 4 m.fdt_at) fdt_magic ≡ false

module _ (sha1 : Bytes → Bytes) (a : Namespace) (kernel ramdisk second dtb : Bytes)
    (good : IsBootable sha1 a kernel ramdisk second) where
  -- Where the two partitions of a slot begin with a boot image of pages of 2048 bytes and with a
  -- DTBO image, and kernel and tree fit in what the slot's macro reads: `booti` gets the kernel at
  -- its first address, and the tree 64 bytes behind its second, where there is no FDT magic.
  pub carry_out-macro-IsFound :
      (s : Slot) (disk img dtbo rest behind : Bytes)
      → a.pagesize ≡ 2048
      → boot_image sha1 a kernel ramdisk second ≡ ok img
      → build dtb ≡ ok dtbo
      → drop (boot_lba s * 512) disk ≡ img ++ rest
      → drop (dtbo_lba s * 512) disk ≡ dtbo ++ behind
      → 2048 + length kernel ≤ boot_len * 512
      → dt_offset + length dtb ≤ dtbo_len * 512
      → (m : Booted) × (carry_out (commands (macro_of s)) disk [] ≡ some m) × IsFound kernel dtb m
  carry_out-macro-IsFound s disk img dtbo rest behind page made built boot_at dtbo_at room
        tree_room =
      let small : dt_offset + length dtb < 2 ^ 32 = omega arith in
      let packed = dtbo_image dtb small in
      let whole = image sha1 a kernel ramdisk second good in
      let img_is : ok whole ≡ ok img =
        sym (boot_image-image sha1 a kernel ramdisk second good) ∙ made in
      let dtbo_is : ok packed ≡ ok dtbo = sym (build-dtbo_image dtb small) ∙ built in
      let boot_whole : drop (boot_lba s * 512) disk ≡ whole ++ rest =
        boot_at ∙ ap (λ b. b ++ rest) (sym (ok_inj img_is)) in
      let dtbo_whole : drop (dtbo_lba s * 512) disk ≡ packed ++ behind =
        dtbo_at ∙ ap (λ b. b ++ behind) (sym (ok_inj dtbo_is)) in
      let first : take 4 (sectors disk (dtbo_lba s) dtbo_len) ≡ table_magic =
        table_first dtb small (dtbo_lba s * 512) ((dtbo_lba s + dtbo_len) * 512) disk behind
          dtbo_whole (omega arith) in
      (
        record {
          kernel_at = drop 2048 (sectors disk (boot_lba s) boot_len);
          fdt_at = sectors disk (dtbo_lba s) dtbo_len;
        },
        carry_out-macro s disk,
        record {
          kernel_found =
              found_in_read 2048 (boot_lba s * 512) ((boot_lba s + boot_len) * 512) disk whole rest
                kernel _ boot_whole
                (ap (λ n. drop n whole) (sym page) ∙ at_kernel sha1 a kernel ramdisk second good)
                (omega arith);
          tree_found =
              found_in_read dt_offset (dtbo_lba s * 512) ((dtbo_lba s + dtbo_len) * 512) disk packed
                behind dtb [] dtbo_whole (drop-dtbo_image dtb small ∙ sym (append-nil dtb))
                (omega arith);
          not_a_tree = rw first (unfold text_eq in refl);
        },
      )
    where
      ok_inj : {x y : Bytes} → ok x ≡ ok y → x ≡ y
      ok_inj h = cc
