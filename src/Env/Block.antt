-- ===== src/Env/Block.antt =====
-- The block on the eMMC: `parse_env`, `serialize_env` and `verify_block`. The block is a CRC-32 of
-- the rest, then the entries `key=value`, each ended by a zero byte, and zeros up to its size.
pub mod Storable
pub mod RoundTrip
pub mod Sound
pub mod Serialized
pub mod Warnings
use poly_firmware_build.Base.{
  ℕ, ◌+◌, ◌%◌, ◌^◌, Bool, true, false, not, Option, none, some, List, [], ◌∷◌, ◌++◌, ltb, leb, ◌==◌,
  if◌then◌else◌, Bytes, Text, length, take, drop, ljust, replicate, contains, split, split_once,
  join, ascii_codec, decode_latin1,
}
use poly_firmware_build.Host.{
  Error, struct_error, unicode_encode_error, value_error, Result, ok, raise, bind, from_option,
  check, Message, message,
}
use poly_firmware_build.Pack.{little, pack, unpack, crc32}
use poly_firmware_build.Env.Dict.{Env, insert}
use poly_firmware_build.Env.Slots.{env_block_size, env_data_size}

-- `entry.decode("ascii")`, and as latin-1 where that raises.
unfoldable pub decode_entry : Bytes → Text
decode_entry entry = elim (ascii_codec entry) [ some text ↦ text | none ↦ decode_latin1 entry ]

-- `out[k] = v` for one entry; an entry with no `=` is skipped with a warning.
unfoldable pub add_entry : Bytes → Env → Env
add_entry entry out = elim (split_once b'=' (decode_entry entry)) [
  | none ↦ out
  | some (k, v) ↦ insert k v out
]

-- The loop of `parse_env`, up to the first empty entry.
unfoldable pub parse_entries : List Bytes → Env → Env
parse_entries [] out = out
parse_entries ([] ∷ rest) out = out
parse_entries ((c ∷ cs) ∷ rest) out = parse_entries rest (add_entry (c ∷ cs) out)

unfoldable pub parse_env : Bytes → Result Env
parse_env block =
    if not (length block == env_block_size)
    then raise
        (value_error "env block must be {} bytes, got {}" (env_block_size ∷ length block ∷ []))
    else ok (parse_entries (split 0 (drop 4 block)) [])

-- `struct.unpack("<I", b)[0]`
unfoldable pub unpack_u32 : Bytes → Result ℕ
unpack_u32 b = elim (unpack little (4 ∷ []) b) [ some (n ∷ []) ↦ ok n | _ ↦ raise struct_error ]

-- The warning of a checksum that differs; it follows the test of the size, so `unpack` does not raise.
unfoldable pub crc_warnings : Bytes → List Message
crc_warnings block =
    let actual = crc32 (drop 4 block) % 2 ^ 32 in
    elim (unpack_u32 (take 4 block)) [
      | raise e ↦ []
      | ok stored ↦
          if not (stored == actual)
          then message "warning: stored CRC {:#010x} != computed {:#010x}" (stored ∷ actual ∷ []) []
            ∷ []
          else []
    ]

-- The warnings of entries with no `=`, up to the first empty entry.
unfoldable pub entry_warnings : List Bytes → List Message
entry_warnings [] = []
entry_warnings ([] ∷ rest) = []
entry_warnings ((c ∷ cs) ∷ rest) =
    let later = entry_warnings rest in
    let text = decode_entry (c ∷ cs) in
    if not (contains b'=' text)
    then message "warning: malformed entry (no '='): {!r}" [] (text ∷ []) ∷ later
    else later

-- What `parse_env` writes to standard error where it returns.
abbrev pub parse_warnings : Bytes → List Message
parse_warnings block = crc_warnings block ++ entry_warnings (split 0 (drop 4 block))

abbrev pub entry_text : Text → Text → Text
entry_text k v = k ++ b'=' ∷ v

-- `[f"{k}={v}".encode("ascii") for k, v in entries.items()]`
unfoldable pub encode_entries : Env → Result (List Bytes)
encode_entries [] = ok []
encode_entries ((k, v) ∷ d) =
    bind (from_option unicode_encode_error (ascii_codec (entry_text k v)))
      λ part. bind (encode_entries d) λ parts. ok (part ∷ parts)

-- The padding, the checksum and the test of the size.
unfoldable pub seal_payload : Bytes → Result Bytes
seal_payload payload =
    if ltb env_data_size (length payload)
    then raise (value_error "env payload {} > {} bytes" (length payload ∷ env_data_size ∷ []))
    else let padded = ljust env_data_size 0 payload in
      bind (from_option struct_error (pack little ((4, crc32 padded % 2 ^ 32) ∷ [])))
        λ crc. ok (crc ++ padded)

unfoldable pub serialize_env : Env → Result Bytes
serialize_env entries =
    bind (encode_entries entries) λ parts. seal_payload (join 0 parts ++ 0 ∷ 0 ∷ [])

-- The loop of `verify_block`; `none` is that all entries up to the first empty one are sound.
unfoldable pub verify_entries : List Bytes → Option Message
verify_entries [] = none
verify_entries ([] ∷ rest) = none
verify_entries ((c ∷ cs) ∷ rest) =
    let later = verify_entries rest in
    elim (ascii_codec (c ∷ cs)) [
      | none ↦ some (message "non-ascii entry: {!r}" [] ((c ∷ cs) ∷ []))
      | some text ↦
          if not (contains b'=' text)
          then some (message "malformed entry: {!r}" [] (text ∷ []))
          else later
    ]

unfoldable pub verify_block : Bytes → Result (Bool × Message)
verify_block block =
    if not (length block == env_block_size)
    then ok (false, message "size={} (want {})" (length block ∷ env_block_size ∷ []) [])
    else let actual = crc32 (drop 4 block) % 2 ^ 32 in
      bind (unpack_u32 (take 4 block)) λ stored.
        if not (stored == actual)
        then ok (false, message "crc stored={:#010x} actual={:#010x}" (stored ∷ actual ∷ []) [])
        else ok (elim (verify_entries (split 0 (drop 4 block))) [
          | some found ↦ (false, found)
          | none ↦ (true, message "ok" [] [])
        ])
