-- ===== src/Env/Block/Serialized.antt =====
-- What `serialize_env` does with any entries.
use poly_firmware_build.Base.{
  ◌%◌, ◌^◌, ◌≤◌, ◌<◌, ◌≡◌, refl, sym, ◌∙◌, ap, ◌⊎◌, inl, inr, [], ◌∷◌, All, IsAscii, arith,
  Bool-cases, dec_lt, all_ascii, all_ascii_sound, all_ascii-All, ascii_codec, lt→ltb, Bytes, length,
  take, drop, ljust,
}
use poly_firmware_build.Host.{Result, ok, raise, value_error, unicode_encode_error}
use poly_firmware_build.Pack.{crc32}
use poly_firmware_build.Env.Dict.{Env}
use poly_firmware_build.Env.Slots.{env_block_size, env_data_size}
use poly_firmware_build.Env.Block.{
  entry_text, encode_entries, seal_payload, serialize_env, unpack_u32,
}
use poly_firmware_build.Env.Block.Storable.{parts, payload_size}
use poly_firmware_build.Env.Block.RoundTrip.{
  payload, length-payload, checksum, block_of, seal_payload-block, length-block_of, drop-block_of,
  take-block_of, unpack_u32-packed,
}
use poly_firmware_build.Env.Block.Sound.{AnyNotAscii, serialize_env_not_ascii}

abbrev pub AsciiEntries : Env → Type 0
AsciiEntries = All (λ (k, v). All IsAscii (entry_text k v))

-- The three ways in which `serialize_env` ends, each with the entries for which it does.
pub data Serialized (d : Env) : Result Bytes → Type 0 where
  refused_not_ascii : AnyNotAscii d → Serialized d (raise unicode_encode_error)
  refused_too_big :
      AsciiEntries d
      → env_data_size < payload_size d
      → Serialized d
          (raise (value_error "env payload {} > {} bytes" (payload_size d ∷ env_data_size ∷ [])))
  block_made :
      AsciiEntries d
      → payload_size d ≤ env_data_size
      → (block : Bytes) → length block ≡ env_block_size
      → drop 4 block ≡ ljust env_data_size 0 (payload d)
      → unpack_u32 (take 4 block) ≡ ok (crc32 (drop 4 block) % 2 ^ 32)
      → Serialized d (ok block)

ascii_cases : (d : Env) → AsciiEntries d ⊎ AnyNotAscii d
ascii_cases [] = inl tt
ascii_cases ((k, v) ∷ d) = elim (Bool-cases (all_ascii (entry_text k v))) [
  | inr bad ↦ inr (inl bad)
  | inl good ↦ elim (ascii_cases d) [
    | inr later ↦ inr (inr later)
    | inl all ↦ inl (all_ascii_sound (entry_text k v) good, all)
  ]
]

encode_entries-ascii : (d : Env) → AsciiEntries d → encode_entries d ≡ ok (parts d)
unfolding encode_entries ascii_codec
encode_entries-ascii [] h = refl
encode_entries-ascii ((k, v) ∷ d) (h, hs) =
    rw (all_ascii-All (entry_text k v) h, encode_entries-ascii d hs) refl

sealed : (d : Env) → AsciiEntries d → serialize_env d ≡ seal_payload (payload d)
unfolding serialize_env
sealed d h = rw (encode_entries-ascii d h) refl

seal_payload_too_big :
    (p : Bytes)
    → env_data_size < length p
    → seal_payload p
      ≡ raise (value_error "env payload {} > {} bytes" (length p ∷ env_data_size ∷ []))
unfolding seal_payload
seal_payload_too_big p h = rw (lt→ltb env_data_size (length p) h) refl

crc-block_of :
    (p : Bytes) → unpack_u32 (take 4 (block_of p)) ≡ ok (crc32 (drop 4 (block_of p)) % 2 ^ 32)
crc-block_of p =
    ap unpack_u32 (take-block_of p)
    ∙ unpack_u32-packed (checksum p) (omega arith)
    ∙ ap (λ b. ok (crc32 b % 2 ^ 32)) (sym (drop-block_of p))

-- Whatever the entries, `serialize_env` ends in one of three ways: it raises UnicodeEncodeError where
-- an entry is not ASCII; on ASCII entries it raises a ValueError that names the size of the payload
-- where that is above 4092, and else it returns a block of 4096 bytes, of the checksum and the payload
-- filled up with zeros.
pub serialize_env-Serialized : (d : Env) → Serialized d (serialize_env d)
serialize_env-Serialized d = elim (ascii_cases d) [
  | inr bad ↦ rw (serialize_env_not_ascii d bad) (refused_not_ascii bad)
  | inl ascii ↦ elim (dec_lt env_data_size (payload_size d)) [
    | yes big ↦
        let size = length-payload d in
        rw (sealed d ascii, seal_payload_too_big (payload d) (omega (arith, size)), size)
          (refused_too_big ascii big)
    | no fits ↦
        let small : length (payload d) ≤ env_data_size = omega (arith, length-payload d) in
        rw (sealed d ascii, seal_payload-block (payload d) small)
          (block_made ascii (omega arith) (block_of (payload d)) (length-block_of (payload d) small)
            (drop-block_of (payload d)) (crc-block_of (payload d)))
  ]
]
