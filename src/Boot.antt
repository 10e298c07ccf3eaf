-- ===== src/Boot.antt =====
-- tools/mkbootimg.py: an Android boot image with a header of version 0. All fields are little-endian.
pub mod Loader
pub mod Parts
pub mod Layout
pub mod Image
pub mod Refusal
use poly_firmware_build.Base.{
  ℕ, ◌+◌, ◌-◌, ◌%◌, ◌^◌, Bool, true, false, not, Option, none, some, List, [], ◌∷◌, ◌++◌, ltb, ◌==◌,
  if◌then◌else◌, Bytes, Text, codes, length, take, drop, ljust, replicate,
}
use poly_firmware_build.Host.{
  Error, zero_division_error, Result, ok, raise, bind, system_exit, M, ◌>>=◌, ◌>>◌, pure, lift,
  read_file, write_file, print, Message, message,
}
use poly_firmware_build.Pack.{little, uint}

-- `filedata`; an argument that is not given, or is empty, is the empty file.
abbrev pub filedata : Option Text → M Bytes
filedata none = pure []
filedata (some []) = pure []
filedata (some (c ∷ cs)) = read_file (c ∷ cs)

-- Python's `%` and padding by it raise an exception where the page size is 0.
unfoldable pub pad : Bytes → ℕ → Result Bytes
pad b page =
    if page == 0
    then raise zero_division_error
    else ok (b ++ replicate ((page - length b % page) % page) 0)

unfoldable pub u32 : ℕ → Bytes
u32 x = uint little 4 (x % 2 ^ 32)

-- The command line after `argparse`, with `cmdline` encoded.
pub record Namespace : Type 0 where
  pub header_version : ℕ
  pub kernel : Text
  pub ramdisk : Option Text
  pub second : Option Text
  pub pagesize : ℕ
  pub base : ℕ
  pub kernel_offset : ℕ
  pub ramdisk_offset : ℕ
  pub second_offset : ℕ
  pub tags_offset : ℕ
  pub cmdline : Bytes
  pub output : Text

-- Numbers one after the other, each by `u32`.
unfoldable pub words : List ℕ → Bytes
words [] = []
words (x ∷ xs) = u32 x ++ words xs

-- What the digest is taken of.
unfoldable pub digest_input : List Bytes → Bytes
digest_input [] = []
digest_input (part ∷ parts) = part ++ (u32 (length part) ++ digest_input parts)

abbrev pub header_words : Namespace → Bytes → Bytes → Bytes → List ℕ
header_words a kernel ramdisk second =
    length kernel
    ∷ (a.base + a.kernel_offset)
    ∷ length ramdisk
    ∷ (a.base + a.ramdisk_offset)
    ∷ length second
    ∷ (a.base + a.second_offset)
    ∷ (a.base + a.tags_offset)
    ∷ a.pagesize
    ∷ 0
    ∷ 0
    ∷ []

-- The header; `sha1` stands for the digest of `hashlib.sha1`.
unfoldable pub header : (Bytes → Bytes) → Namespace → Bytes → Bytes → Bytes → Bytes
header sha1 a kernel ramdisk second =
    let img_id = ljust 32 0 (sha1 (digest_input (kernel ∷ ramdisk ∷ second ∷ []))) in
    codes "ANDROID!"
    ++ (words (header_words a kernel ramdisk second)
        ++ (replicate 16 0
            ++ (ljust 512 0 (take 512 a.cmdline) ++ (img_id ++ ljust 1024 0 (drop 512 a.cmdline)))))

-- `pad(b, page)` where `b` is not empty, and nothing where it is.
abbrev pub pad_part : Bytes → ℕ → Result Bytes
pad_part [] page = ok []
pad_part (b ∷ bs) page = pad (b ∷ bs) page

-- The value of `out`.
unfoldable pub boot_image : (Bytes → Bytes) → Namespace → Bytes → Bytes → Bytes → Result Bytes
boot_image sha1 a kernel ramdisk second =
    bind (pad (header sha1 a kernel ramdisk second) a.pagesize) λ hdr.
      bind (pad kernel a.pagesize) λ k.
        bind (pad_part ramdisk a.pagesize)
          λ r. bind (pad_part second a.pagesize) λ s. ok ((hdr ++ k) ++ (r ++ s))

abbrev pub summary : Namespace → Bytes → Bytes → Bytes → Bytes → Message
summary a kernel ramdisk second img =
    message "boot.img v0: kernel={} ramdisk={} second={} page={} -> {} ({} bytes)"
      (length kernel ∷ length ramdisk ∷ length second ∷ a.pagesize ∷ length img ∷ [])
      (a.output ∷ [])

unfoldable pub main : (Bytes → Bytes) → Namespace → M (Unit {0})
main sha1 a =
    if not (a.header_version == 0)
    then lift (raise (system_exit "mkbootimg.py: only --header_version 0 is supported" []))
    else (do
      kernel ← filedata (some a.kernel)
      ramdisk ← filedata a.ramdisk
      second ← filedata a.second
      if ltb (512 + 1024) (length a.cmdline)
          then lift (raise (system_exit "mkbootimg.py: cmdline too long" []))
          else (do
            img ← lift (boot_image sha1 a kernel ramdisk second)
            write_file a.output img
            print (summary a kernel ramdisk second img)))
