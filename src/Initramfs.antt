-- ===== src/Initramfs.antt =====
-- tools/mkinitramfs.py: the boot ramdisk as a `newc` cpio archive, compressed by gzip.
pub mod Hex
pub mod Newc
pub mod Archive
pub mod Listing
pub mod Main
pub mod Refusal
use poly_firmware_build.Base.{
  ℕ, ◌+◌, ◌-◌, ◌%◌, bit_or, Bool, not, List, [], ◌∷◌, ◌++◌, if◌then◌else◌, Bytes, Text, codes,
  length, take, slice, replicate, text_eq, hex8,
}
use poly_firmware_build.Host.{
  ok, raise, system_exit, M, ◌>>=◌, ◌>>◌, lift, read_file, write_file, print, Message, message,
}

abbrev pub cpio_magic : Bytes
cpio_magic = codes "070701"

pub record Cpio : Type 0 where
  pub blob : Bytes
  pub ino : ℕ

-- `Cpio()`
abbrev pub new : Cpio
new = record { blob = []; ino = 720 }

unfoldable pub pad4 : Cpio → Cpio
pad4 c = record c { blob = c.blob ++ replicate ((4 - length c.blob % 4) % 4) 0 }

-- Numbers one after the other, each formatted by `%08X`.
unfoldable pub hex_fields : List ℕ → Bytes
hex_fields [] = []
hex_fields (n ∷ ns) = hex8 n ++ hex_fields ns

abbrev pub header_fields : ℕ → Text → ℕ → ℕ → ℕ → ℕ → ℕ → List ℕ
header_fields ino name mode filesize rdev_maj rdev_min nlink =
    ino
    ∷ mode
    ∷ 0
    ∷ 0
    ∷ nlink
    ∷ 0
    ∷ filesize
    ∷ 0
    ∷ 0
    ∷ rdev_maj
    ∷ rdev_min
    ∷ (length name + 1)
    ∷ 0
    ∷ []

-- `_entry`, with its arguments in the order of its signature. All names are ASCII, where `encode`
-- keeps the characters' codes.
unfoldable pub entry : Text → ℕ → ℕ → ℕ → ℕ → ℕ → Bytes → Cpio → Cpio
entry name mode filesize rdev_maj rdev_min nlink content c =
    let ino = c.ino + 1 in
    let hdr =
      cpio_magic ++ hex_fields (header_fields ino name mode filesize rdev_maj rdev_min nlink) in
    let named = pad4 (record { blob = c.blob ++ (hdr ++ (name ++ 0 ∷ [])); ino = ino }) in
    pad4 (record named { blob = named.blob ++ content })

abbrev pub dir : Text → ℕ → Cpio → Cpio
dir name mode = entry name (bit_or 0o040000 mode) 0 0 0 2 []

abbrev pub file : Text → Bytes → ℕ → Cpio → Cpio
file name content mode = entry name (bit_or 0o100000 mode) (length content) 0 0 1 content

abbrev pub chardev : Text → ℕ → ℕ → ℕ → Cpio → Cpio
chardev name major minor mode = entry name (bit_or 0o020000 mode) 0 major minor 1 []

unfoldable pub trailer : Cpio → Bytes
trailer c =
    let ended = entry (codes "TRAILER!!!") 0 0 0 0 1 [] c in
    ended.blob ++ replicate ((512 - length ended.blob % 512) % 512) 0

-- The loop over the names of the empty directories.
abbrev pub dirs : List Text → Cpio → Cpio
dirs [] c = c
dirs (d ∷ ds) c = dirs ds (dir d 0o755 c)

abbrev pub dir_names : List Text
dir_names =
    codes "dev"
    ∷ codes "proc"
    ∷ codes "sys"
    ∷ codes "bin"
    ∷ codes "mnt"
    ∷ codes "lower"
    ∷ codes "rw"
    ∷ codes "newroot"
    ∷ codes "persist"
    ∷ []

-- The archive that `main` builds.
unfoldable pub archive : Bytes → Bytes → Bytes
archive init busybox =
    let c = dirs dir_names new in
    let c1 = chardev (codes "dev/console") 5 1 0o600 c in
    let c2 = chardev (codes "dev/null") 1 3 0o666 c1 in
    let c3 = file (codes "bin/busybox") busybox 0o755 c2 in
    let c4 = file (codes "init") init 0o755 c3 in trailer c4

abbrev pub summary : Bytes → Text → Bytes → Message
summary cpio out payload =
    message "initramfs: {} files, cpio {} B -> {} ({} B gz)" (2 ∷ length cpio ∷ length payload ∷ [])
      (out ∷ [])

-- The tests on the two inputs; 183 is EM_AARCH64.
unfoldable pub check_inputs : Bytes → Bytes → M (Unit {0})
check_inputs init busybox = lift (
    if not (text_eq (take 2 init) (codes "#!"))
    then raise (system_exit "ERROR: {} does not look like a script" [])
    else if not (text_eq (take 4 busybox) (0x7f ∷ codes "ELF"))
    then raise (system_exit "ERROR: {} is not an ELF binary" [])
    else if not (text_eq (slice busybox 18 20) (183 ∷ 0 ∷ []))
    then raise (system_exit "ERROR: {} is not aarch64" [])
    else ok tt)

-- `main` on the arguments `--init`, `--busybox` and `--out`; `gzip` stands for `gzip.compress` with
-- level 9 and time 0.
unfoldable pub main : (Bytes → Bytes) → Text → Text → Text → M (Unit {0})
main gzip init_path busybox_path out = do
  init ← read_file init_path
  busybox ← read_file busybox_path
  check_inputs init busybox
  let cpio = archive init busybox
  let payload = gzip cpio
  write_file out payload
  print (summary cpio out payload)
