-- ===== src/Config.antt =====
-- tools/mkconfigblob.py: the image for the cache partition, with a configuration and, where one is
-- given, a bootloader. `sha256` stands for the digest of `hashlib.sha256`.
pub mod Usage
pub mod Reader
pub mod Layout
pub mod Written
pub mod Lines
pub mod Refusal
use poly_firmware_build.Base.{
  ℕ, ◌+◌, Bool, true, false, ◌&&◌, ◌==◌, Option, none, some, List, [], ◌∷◌, ◌++◌, if◌then◌else◌,
  Bytes, Text, codes, length, take, drop, replicate, join, split, map, text_eq, utf8, utf8_decode,
}
use poly_firmware_build.Host.{
  Result, ok, raise, bind, from_option, struct_error, index_error, unicode_encode_error,
  unicode_decode_error, system_exit, M, ◌>>=◌, ◌>>◌, lift, read_file, write_file, print, Message,
  message,
}
use poly_firmware_build.Config.Usage.{usage_message}
use poly_firmware_build.Pack.{little, pack}

abbrev pub cfg_magic : Bytes
cfg_magic = codes "TC8CFGv1"

abbrev pub bl_magic : Bytes
bl_magic = codes "TC8BOOT1"

abbrev pub bl_hdr_off : ℕ
bl_hdr_off = 1048576

abbrev pub bl_img_off : ℕ
bl_img_off = bl_hdr_off + 512

-- `l.rstrip("\n")`
unfoldable pub rstrip_newlines : Text → Text
rstrip_newlines [] = []
rstrip_newlines (c ∷ cs) = elim (rstrip_newlines cs) [
  | [] ↦ if c == 10 then [] else c ∷ []
  | d ∷ ds ↦ c ∷ d ∷ ds
]

-- The text of the configuration.
abbrev pub config_text : List Text → Text
config_text lines = join 10 (map rstrip_newlines lines) ++ 10 ∷ []

-- A magic, the length and the digest of a content, and 20 zeros.
abbrev pub blob_header : (Bytes → Bytes) → Bytes → Bytes → Result Bytes
blob_header sha256 magic content =
    bind (from_option struct_error (pack little ((4, length content) ∷ [])))
      λ size. ok (magic ++ (size ++ (sha256 content ++ replicate 20 0)))

unfoldable pub cfg_blob : (Bytes → Bytes) → List Text → Result Bytes
cfg_blob sha256 lines =
    bind (from_option unicode_encode_error (utf8 (config_text lines)))
      λ payload. bind (blob_header sha256 cfg_magic payload) λ header. ok (header ++ payload)

-- `buf[a:b] = v` on a bytearray, for `a` up to `b`.
abbrev pub set_slice : ℕ → ℕ → Bytes → Bytes → Bytes
set_slice a b v buf = take a buf ++ (v ++ drop b buf)

-- The value of `buf`.
unfoldable pub cache_image : (Bytes → Bytes) → Bytes → Bytes → Result Bytes
cache_image sha256 cfg image =
    let blank = replicate (bl_img_off + length image) 0 in
    let configured = set_slice 0 (length cfg) cfg blank in
    bind (blob_header sha256 bl_magic image) λ hdr.
      let headed = set_slice bl_hdr_off (bl_hdr_off + length hdr) hdr configured in
      ok (set_slice bl_img_off (bl_img_off + length image) image headed)

-- The command line behind the program's name and the output path.
pub record Arguments : Type 0 where
  pub bootloader : Option Text
  pub rest : List Text

abbrev pub take_bootloader : List Text → Result Arguments
take_bootloader [] = ok (record { bootloader = none; rest = [] })
take_bootloader (a ∷ []) =
    if text_eq a (codes "--bootloader")
    then raise index_error
    else ok (record { bootloader = none; rest = a ∷ [] })
take_bootloader (a ∷ path ∷ args) =
    if text_eq a (codes "--bootloader")
    then ok (record { bootloader = some path; rest = args })
    else ok (record { bootloader = none; rest = a ∷ path ∷ args })

-- Reading a text file turns `\r\n` and `\r` into `\n`.
unfoldable pub universal_newlines : Text → Text
universal_newlines [] = []
universal_newlines (c ∷ []) = if c == 13 then 10 ∷ [] else c ∷ []
universal_newlines (c ∷ d ∷ cs) =
    let rest = universal_newlines (d ∷ cs) in
    if c == 13 then if d == 10 then rest else 10 ∷ rest else c ∷ rest

-- The pieces without the empty one behind a last newline.
abbrev pub drop_last_empty : List Text → List Text
drop_last_empty [] = []
drop_last_empty ([] ∷ []) = []
drop_last_empty ((c ∷ cs) ∷ []) = (c ∷ cs) ∷ []
drop_last_empty (p ∷ q ∷ ps) = p ∷ drop_last_empty (q ∷ ps)

-- The lines of an open text file, without their newlines.
unfoldable pub text_lines : Bytes → Result (List Text)
text_lines b =
    bind (from_option unicode_decode_error (utf8_decode b))
      λ text. ok (drop_last_empty (split 10 (universal_newlines text)))

abbrev pub take_lines : List Text → M (List Text)
take_lines [] w = lift (ok []) w
take_lines (a ∷ []) w =
    lift (if text_eq a (codes "--from") then raise index_error else ok (a ∷ [])) w
take_lines (a ∷ path ∷ args) w =
    (if text_eq a (codes "--from")
        then (do b ← read_file path; lift (text_lines b))
        else lift (ok (a ∷ path ∷ args)))
      w

abbrev pub write_config : Text → Bytes → M (Unit {0})
write_config out cfg = do
  write_file out cfg
  print (message "wrote {}: config blob {} B" (length cfg ∷ []) (out ∷ []))

abbrev pub write_cache : (Bytes → Bytes) → Text → Bytes → Text → M (Unit {0})
write_cache sha256 out cfg bootloader = do
  image ← read_file bootloader
  buf ← lift (cache_image sha256 cfg image)
  write_file out buf
  print (
      message "wrote {}: config {} B + bootloader {} B (cache image {} B)"
        (length cfg ∷ length image ∷ length buf ∷ []) (out ∷ []))

-- An empty path of a bootloader counts as none.
abbrev pub write_output : (Bytes → Bytes) → Text → Bytes → Option Text → M (Unit {0})
write_output sha256 out cfg none = write_config out cfg
write_output sha256 out cfg (some []) = write_config out cfg
write_output sha256 out cfg (some (c ∷ cs)) = write_cache sha256 out cfg (c ∷ cs)

unfoldable pub main : (Bytes → Bytes) → List Text → M (Unit {0})
main sha256 (name ∷ out ∷ a ∷ args) = do
  given ← lift (take_bootloader (a ∷ args))
  lines ← take_lines given.rest
  cfg ← lift (cfg_blob sha256 lines)
  write_output sha256 out cfg given.bootloader
main sha256 _ = lift (raise (system_exit usage_message []))
