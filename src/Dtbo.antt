-- ===== src/Dtbo.antt =====
-- tools/mkdtboimg.py: one device tree in an Android DTBO container; all fields are big-endian.
pub mod Layout
use poly_firmware_build.Base.{
  ℕ, ◌+◌, Bool, true, false, not, Option, none, some, List, [], ◌∷◌, ◌++◌, String, if◌then◌else◌,
  Bytes, Text, codes, length, take, text_eq,
}
use poly_firmware_build.Host.{
  Result, ok, raise, bind, from_option, struct_error, system_exit, M, ◌>>=◌, ◌>>◌, lift, read_file,
  write_file, print, Message, message,
}
use poly_firmware_build.Pack.{big, pack, Fields}

abbrev pub magic : ℕ
magic = 0xd7b7ab1e

abbrev pub header_size : ℕ
header_size = 32

abbrev pub entry_size : ℕ
entry_size = 32

abbrev pub page_size : ℕ
page_size = 2048

abbrev pub dt_offset : ℕ
dt_offset = header_size + entry_size

-- `dt_table_header` and `dt_table_entry`.
abbrev pub table_fields : ℕ → Fields
table_fields total_size =
    (4, magic)
    ∷ (4, total_size)
    ∷ (4, header_size)
    ∷ (4, entry_size)
    ∷ (4, 1)
    ∷ (4, header_size)
    ∷ (4, page_size)
    ∷ (4, 0)
    ∷ []

abbrev pub entry_fields : ℕ → Fields
entry_fields dt_size =
    (4, dt_size) ∷ (4, dt_offset) ∷ (4, 0) ∷ (4, 0) ∷ (4, 0) ∷ (4, 0) ∷ (4, 0) ∷ (4, 0) ∷ []

unfoldable pub build : Bytes → Result Bytes
build dtb =
    let total_size = dt_offset + length dtb in
    bind (from_option struct_error (pack big (table_fields total_size))) λ hdr.
      bind (from_option struct_error (pack big (entry_fields (length dtb))))
        λ entry. ok (hdr ++ (entry ++ dtb))

-- The command line after `argparse`.
pub record Namespace : Type 0 where
  pub command : Option Text
  pub out_pos : Option Text
  pub dtb : Text
  pub output : Option Text

-- Python's `a or b` of two optional texts: an empty text counts as none.
abbrev pub or_text : Option Text → Option Text → Option Text
or_text none b = b
or_text (some []) b = b
or_text (some (c ∷ cs)) b = some (c ∷ cs)

-- Where the image goes, before the test `if not out`.
unfoldable pub out_path : Namespace → Option Text
out_path a = elim a.command [
  | none ↦ a.output
  | some verb ↦
      if not (text_eq verb (codes "create"))
      then or_text a.output (some verb)
      else or_text a.output a.out_pos
]

abbrev pub fdt_magic : Bytes
fdt_magic = 0xd0 ∷ 0x0d ∷ 0xfe ∷ 0xed ∷ []

abbrev pub summary : Text → Bytes → Bytes → Message
summary out dtb img =
    message "dtbo.img: dtb={} -> {} ({} bytes) magic=d7b7ab1e fdt@0x40"
      (length dtb ∷ length img ∷ []) (out ∷ [])

-- `main` from the output path on.
abbrev pub write_image : Namespace → Option Text → M (Unit {0})
write_image a none w =
    lift
      (raise (
        system_exit
          "mkdtboimg.py: no output path (use 'create <out> --dtb X' or '--dtb X --output Y')" []))
      w
write_image a (some out) w =
    (do
      dtb ← read_file a.dtb
      if not (text_eq (take 4 dtb) fdt_magic)
          then lift
              (raise (system_exit "mkdtboimg.py: {} is not an FDT (missing d00dfeed magic)" []))
          else (do img ← lift (build dtb); write_file out img; print (summary out dtb img)))
      w

unfoldable pub main : Namespace → M (Unit {0})
main a = write_image a (or_text (out_path a) none)
