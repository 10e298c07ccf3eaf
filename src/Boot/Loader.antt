-- ===== src/Boot/Loader.antt =====
-- How a boot loader reads an image of header version 0.
use poly_firmware_build.Base.{
  ℕ, ◌+◌, ◌-◌, ◌%◌, not, Option, none, some, [], ◌∷◌, ◌++◌, if◌then◌else◌, Bytes, codes, text_eq,
  take, drop,
}
use poly_firmware_build.Pack.{little, unpack}

-- What a boot loader takes out of an image.
pub record Loaded : Type 0 where
  pub kernel : Bytes
  pub ramdisk : Bytes
  pub second : Bytes
  pub kernel_addr : ℕ
  pub ramdisk_addr : ℕ
  pub second_addr : ℕ
  pub tags_addr : ℕ
  pub cmdline : Bytes

-- `n` rounded up to whole pages.
abbrev pub up : ℕ → ℕ → ℕ
up page n = n + (page - n % page) % page

-- The header's fields are at fixed places, and each part begins on a page of its own. The command
-- line is the field `cmdline` with the field `extra_cmdline` behind it.
unfoldable pub load_image : Bytes → Option Loaded
load_image img =
    if not (text_eq (take 8 img) (codes "ANDROID!"))
    then none
    else elim (unpack little (4 ∷ 4 ∷ 4 ∷ 4 ∷ 4 ∷ 4 ∷ 4 ∷ 4 ∷ 4 ∷ 4 ∷ []) (take 40 (drop 8 img))) [
      | some (k ∷ k_addr ∷ r ∷ r_addr ∷ s ∷ s_addr ∷ tags ∷ page ∷ version ∷ os ∷ []) ↦
          some (record {
            kernel = take k (drop page img);
            ramdisk = take r (drop (page + up page k) img);
            second = take s (drop (page + up page k + up page r) img);
            kernel_addr = k_addr;
            ramdisk_addr = r_addr;
            second_addr = s_addr;
            tags_addr = tags;
            cmdline = take 512 (drop 64 img) ++ take 1024 (drop 608 img);
          })
      | _ ↦ none
    ]
