-- ===== src/Env/Block/RoundTrip.antt =====
-- Reading back what was written.
use poly_firmware_build.Base.{
  ℕ, ◌+◌, ◌-◌, ◌%◌, ◌^◌, ◌≤◌, ◌<◌, ◌≡◌, refl, ap, ◌∙◌, true, List, [], ◌∷◌, ◌++◌, arith, Bytes,
  Text, length, take, drop, ljust, replicate, split, join, append_assoc, split-join, length-append,
  length-ljust, take-length_append, drop-length_append, ==_refl, lt→ltb_false,
}
use poly_firmware_build.Host.{ok, message}
use poly_firmware_build.Pack.{little, crc32}
use poly_firmware_build.Pack.RoundTrip.{packed, pack-Fit, length-packed, unpack-packed}
use poly_firmware_build.Env.Dict.{Env, lookup}
use poly_firmware_build.Env.Slots.{env_block_size, env_data_size}
use poly_firmware_build.Env.Block.{
  parse_env, entry_text, seal_payload, serialize_env, unpack_u32, verify_block,
}
use poly_firmware_build.Env.Block.Storable.{
  AllEntries, IsStorable, parts, used_bytes, payload_size, encode_entries-parts, parts-Lacks, Fresh,
  parse_entries-parts, verify_entries-parts,
}

abbrev pub payload : Env → Bytes
payload d = join 0 (parts d) ++ 0 ∷ 0 ∷ []

length-join :
    (k v : Text) (d : Env) → length (join 0 (parts ((k, v) ∷ d))) + 1 ≡ used_bytes ((k, v) ∷ d)
unfolding join
length-join k v [] = omega (arith, length-append k (b'=' ∷ v))
length-join k v ((j, w) ∷ d) = omega (
  arith,
  length-append (entry_text k v) (0 ∷ join 0 (parts ((j, w) ∷ d))),
  length-append k (b'=' ∷ v),
  length-join j w d,
)

pub length-payload : (d : Env) → length (payload d) ≡ payload_size d
length-payload [] = unfold join in refl
length-payload ((k, v) ∷ d) =
    omega (arith, length-append (join 0 (parts ((k, v) ∷ d))) (0 ∷ 0 ∷ []), length-join k v d)

-- The block that holds a given payload.
abbrev pub data_area : Bytes → Bytes
data_area p = ljust env_data_size 0 p

abbrev pub checksum : Bytes → ℕ
checksum p = crc32 (data_area p) % 2 ^ 32

abbrev pub block_of : Bytes → Bytes
block_of p = packed little ((4, checksum p) ∷ []) ++ data_area p

pub seal_payload-block : (p : Bytes) → length p ≤ env_data_size → seal_payload p ≡ ok (block_of p)
unfolding seal_payload
seal_payload-block p h = rw (
  lt→ltb_false (length p) env_data_size h,
  pack-Fit little ((4, checksum p) ∷ []) (omega arith, tt),
)

pub length-block_of : (p : Bytes) → length p ≤ env_data_size → length (block_of p) ≡ env_block_size
length-block_of p h = omega (
  arith,
  length-append (packed little ((4, checksum p) ∷ [])) (data_area p),
  length-packed little ((4, checksum p) ∷ []),
  length-ljust env_data_size 0 p h,
)

pub drop-block_of : (p : Bytes) → drop 4 (block_of p) ≡ data_area p
drop-block_of p = drop-length_append 4 _ (data_area p) (length-packed little ((4, checksum p) ∷ []))

pub take-block_of : (p : Bytes) → take 4 (block_of p) ≡ packed little ((4, checksum p) ∷ [])
take-block_of p = take-length_append 4 _ (data_area p) (length-packed little ((4, checksum p) ∷ []))

-- The pieces of the data area of a stored environment.
split-data_area :
    (d : Env)
    → AllEntries d
    → (rest : List Bytes) × (split 0 (data_area (payload d)) ≡ parts d ++ [] ∷ rest)
split-data_area d h =
    let zeros = replicate (env_data_size - length (payload d)) 0 in
    let (rest, e) = split-join 0 (parts d) zeros (parts-Lacks d h) in
    (rest, ap (split 0) (append_assoc (join 0 (parts d)) (0 ∷ 0 ∷ []) zeros) ∙ e)

pub unpack_u32-packed : (n : ℕ) → n < 2 ^ 32 → unpack_u32 (packed little ((4, n) ∷ [])) ≡ ok n
unfolding unpack_u32
unpack_u32-packed n h = ground (arith, unpack-packed little ((4, n) ∷ []) (h, tt))

module _ (d : Env) (s : IsStorable d) (fits : payload_size d ≤ env_data_size) where
  payload-le : length (payload d) ≤ env_data_size
  payload-le = rw (length-payload d) fits

  pub serialize_env-block : serialize_env d ≡ ok (block_of (payload d))
  unfolding serialize_env
  serialize_env-block = rw (encode_entries-parts d s.entries) (seal_payload-block _ payload-le)

  pub parse_env-block : parse_env (block_of (payload d)) ≡ ok d
  unfolding parse_env
  parse_env-block =
      let (rest, e) = split-data_area d s.entries in
      rw (length-block_of (payload d) payload-le, drop-block_of (payload d), e)
        (ap ok (parse_entries-parts d [] rest s.entries s.nodup (Fresh-nil d)))
    where
      Fresh-nil : (d : Env) → Fresh [] d
      Fresh-nil [] = tt
      Fresh-nil ((k, v) ∷ d) = (unfold lookup in refl, Fresh-nil d)

  pub verify_block-block : verify_block (block_of (payload d)) ≡ ok (true, message "ok" [] [])
  unfolding verify_block
  verify_block-block =
      let (rest, e) = split-data_area d s.entries in
      rw (
        length-block_of (payload d) payload-le,
        drop-block_of (payload d),
        take-block_of (payload d),
        unpack_u32-packed (checksum (payload d)) (omega arith),
        ==_refl,
        e,
        verify_entries-parts d rest s.entries,
        verify_block,
      )

-- An environment of ASCII entries with distinct keys, whose payload fits: `serialize_env` returns a
-- block of the right size, `parse_env` reads the same environment back in the same order, and
-- `verify_block` accepts it.
pub serialize_env-parse_env :
    (d : Env)
    → IsStorable d
    → payload_size d ≤ env_data_size
    → (block : Bytes) × (serialize_env d ≡ ok block)
      × (length block ≡ env_block_size)
      × (parse_env block ≡ ok d)
      × (verify_block block ≡ ok (true, message "ok" [] []))
serialize_env-parse_env d s fits = (
  block_of (payload d),
  serialize_env-block d s fits,
  length-block_of (payload d) (payload-le d s fits),
  parse_env-block d s fits,
  verify_block-block d s fits,
)
