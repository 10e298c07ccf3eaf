-- ===== src/Env/Block/Warnings.antt =====
-- When `parse_env` warns.
use poly_firmware_build.Base.{
  ◌↔◌, All, IsAscii, all_ascii-All, split-All, ==_refl, length-take, ℕ, ◌%◌, ◌^◌, ◌≡◌, refl,
  Bool-cases, Option-cases, inl, inr, true, none, some, List, [], ◌∷◌, ◌++◌, ◌==◌, arith, Bytes,
  length, take, drop, split, contains, ascii_codec,
}
use poly_firmware_build.Host.{message, ok, Message}
use poly_firmware_build.Pack.{little, unpack, unpack_fields, of_uint, crc32}
use poly_firmware_build.Env.Slots.{env_block_size}
use poly_firmware_build.Env.Block.{
  unpack_u32, crc_warnings, entry_warnings, parse_warnings, verify_entries, verify_block,
}
use poly_firmware_build.Env.Block.Sound.{verify_block-IsSound, decode_entry_lem, ascii_codec_sound}

unpack_u32_total : (b : Bytes) → length b ≡ 4 → (n : ℕ) × (unpack_u32 b ≡ ok n)
unfolding unpack_u32 unpack unpack_fields
unpack_u32_total b h = (of_uint little (take 4 b), ground arith)

pub unpack_u32-take :
    (block : Bytes) → length block ≡ env_block_size → (n : ℕ) × (unpack_u32 (take 4 block) ≡ ok n)
unpack_u32-take block h = unpack_u32_total (take 4 block) (omega (arith, length-take 4 block))

entry_warnings-none : (ps : List Bytes) → verify_entries ps ≡ none → entry_warnings ps ≡ []
unfolding entry_warnings verify_entries
entry_warnings-none [] h = refl
entry_warnings-none ([] ∷ ps) h = refl
entry_warnings-none ((c ∷ cs) ∷ ps) h = elim (Option-cases (ascii_codec (c ∷ cs))) [
  | inl bad ↦ ground (arith, bad)
  | inr (text, good) ↦
      let same = (ascii_codec_sound (c ∷ cs) good).0 in
      elim (Bool-cases (contains b'=' (c ∷ cs))) [
        | inl has ↦
            rw (decode_entry_lem (c ∷ cs), has)
              (entry_warnings-none ps (ground (arith, good, same, has)))
        | inr lacks ↦ ground (arith, good, same, lacks)
      ]
]

-- On a block that `verify_block` accepts, `parse_env` writes nothing to standard error.
pub verify_block-parse_warnings :
    (block : Bytes) {m : Message} → verify_block block ≡ ok (true, m) → parse_warnings block ≡ []
unfolding crc_warnings
verify_block-parse_warnings block h =
    let s = verify_block-IsSound block h in
    rw (s.stored, crc_warnings, ==_refl) (entry_warnings-none (split 0 (drop 4 block)) s.walked)

nil-of_append : {A : Type 0} (xs ys : List A) → xs ++ ys ≡ [] → (xs ≡ []) × (ys ≡ [])
nil-of_append [] ys h = (refl, h)
nil-of_append (x ∷ xs) ys h = ground arith

verify_entries-none :
    (ps : List Bytes) → All (All IsAscii) ps → entry_warnings ps ≡ [] → verify_entries ps ≡ none
unfolding entry_warnings verify_entries
verify_entries-none [] a h = refl
verify_entries-none ([] ∷ ps) a h = refl
verify_entries-none ((c ∷ cs) ∷ ps) (a, rest) h =
    let codec : ascii_codec (c ∷ cs) ≡ some (c ∷ cs) =
      unfold ascii_codec in rw (all_ascii-All (c ∷ cs) a) refl in
    elim (Bool-cases (contains b'=' (c ∷ cs))) [
      | inl has ↦
          rw (codec, verify_entries, has)
            (verify_entries-none ps rest (ground (arith, decode_entry_lem (c ∷ cs), has)))
      | inr lacks ↦ ground (arith, decode_entry_lem (c ∷ cs), lacks)
    ]

-- A block of 4096 bytes that are ASCII behind its checksum: `verify_block` accepts it exactly where
-- `parse_env` writes nothing to standard error.
pub verify_block-iff-parse_warnings :
    (block : Bytes)
    → length block ≡ env_block_size
    → All IsAscii (drop 4 block)
    → (verify_block block ≡ ok (true, message "ok" [] [])) ↔ (parse_warnings block ≡ [])
unfolding verify_block crc_warnings
verify_block-iff-parse_warnings block size ascii =
    let (n, stored) = unpack_u32-take block size in
    (
      λ h. verify_block-parse_warnings block h,
      λ quiet.
          let (no_crc, no_entry) =
            nil-of_append (crc_warnings block) (entry_warnings (split 0 (drop 4 block))) quiet in
          let walked =
            verify_entries-none (split 0 (drop 4 block)) (split-All IsAscii 0 (drop 4 block) ascii)
              no_entry in
          elim (Bool-cases (n == crc32 (drop 4 block) % 2 ^ 32)) [
            | inl same ↦ rw (size, stored, verify_block, same, walked) refl
            | inr differ ↦ absurd (ground (arith, stored, differ))
          ],
    )
