-- ===== src/Env/Block/Sound.antt =====
-- What `verify_block` and `serialize_env` accept, and how they refuse.
use poly_firmware_build.Base.{
  contains, contains-Lacks, Bool, not, ◌&&◌, ℕ, ◌%◌, ◌^◌, ◌≡◌, refl, ◌≢◌, ◌⊎◌, inl, inr, true,
  false, Option, none, some, List, [], ◌∷◌, arith, Bytes, Text, IsAscii, Lacks, All, All-of_append,
  length, take, drop, split, split-Lacks, split_once, split_once_sound, ascii_codec, all_ascii,
  all_ascii_sound, Bool-cases, text_eq, text_eq_iff,
}
use poly_firmware_build.Host.{ok, raise, Message, unicode_encode_error}
use poly_firmware_build.Pack.{crc32}
use poly_firmware_build.Env.Dict.{Env, insert, insert-NodupKeys}
use poly_firmware_build.Env.Slots.{env_block_size}
use poly_firmware_build.Env.Block.{
  decode_entry, add_entry, parse_entries, parse_env, entry_text, encode_entries, serialize_env,
  verify_entries, unpack_u32, verify_block,
}
use poly_firmware_build.Env.Block.Storable.{IsEntry, AllEntries, IsStorable}

-- An entry checked by evaluation.
unfoldable pub entry_check : Text → Text → Bool
unfolding all_ascii contains
entry_check k v =
    all_ascii k && all_ascii v && not (contains 0 k) && not (contains 0 v) && not (contains b'=' k)

pub entry_check-IsEntry : (k v : Text) → entry_check k v ≡ true → IsEntry k v
unfolding entry_check
entry_check-IsEntry k v h = record {
  key_ascii = all_ascii_sound k (ground arith);
  value_ascii = all_ascii_sound v (ground arith);
  key_no_nul = contains-Lacks 0 k (ground arith);
  value_no_nul = contains-Lacks 0 v (ground arith);
  key_no_eq = contains-Lacks b'=' k (ground arith);
}

pub ascii_codec_sound : (e : Bytes) {t : Text} → ascii_codec e ≡ some t → (t ≡ e) × All IsAscii e
unfolding ascii_codec
ascii_codec_sound e h = elim (Bool-cases (all_ascii e)) [
  | inl a ↦ (ground arith, all_ascii_sound e a)
  | inr b ↦ absurd (ground arith)
]

-- The decoded text has the bytes of the entry as its characters, ASCII or not.
pub decode_entry_lem : (e : Bytes) → decode_entry e ≡ e
unfolding decode_entry ascii_codec
decode_entry_lem e = ground arith

insert-AllEntries : (k v : Text) (d : Env) → IsEntry k v → AllEntries d → AllEntries (insert k v d)
unfolding insert
insert-AllEntries k v [] e h = (e, tt)
insert-AllEntries k v ((j, w) ∷ d) e (h, hs) = elim (Bool-cases (text_eq k j)) [
  | inl same ↦ rw same (rw ((text_eq_iff k j).0 same) at e, hs)
  | inr differ ↦ rw differ (h, insert-AllEntries k v d e hs)
]

pub insert-IsStorable :
    (k v : Text) (d : Env) → IsEntry k v → IsStorable d → IsStorable (insert k v d)
insert-IsStorable k v d e s = record {
  nodup = insert-NodupKeys k v d s.nodup;
  entries = insert-AllEntries k v d e s.entries;
}

-- A text `k=v` that is ASCII and has no zero byte, cut at its first `=`.
pub split_once-IsEntry :
    (e : Text) {k v : Text}
    → All IsAscii e
    → Lacks 0 e
    → split_once b'=' e ≡ some (k, v)
    → IsEntry k v
split_once-IsEntry e {k} {v} a n h =
    let (whole, no_eq) = split_once_sound b'=' e h in
    let (ka, va) = All-of_append IsAscii k (b'=' ∷ v) (rw whole at a) in
    let (kn, vn) = All-of_append (λ c. c ≢ 0) k (b'=' ∷ v) (rw whole at n) in
    record {
      key_ascii = ka;
      value_ascii = va.1;
      key_no_nul = kn;
      value_no_nul = vn.1;
      key_no_eq = no_eq;
    }

add_entry-IsStorable :
    (e : Bytes) (out : Env)
    → All IsAscii e
    → Lacks 0 e
    → IsStorable out
    → IsStorable (add_entry e out)
add_entry-IsStorable e out a n s = step (split_once b'=' e) refl
  where
    step : (r : Option (Text × Text)) → split_once b'=' e ≡ r → IsStorable (add_entry e out)
    step none h = unfold add_entry in rw (decode_entry_lem e, h, add_entry) s
    step (some (k, v)) h =
        unfold add_entry in
        rw (decode_entry_lem e, h, add_entry)
          (insert-IsStorable k v out (split_once-IsEntry e a n h) s)

parse_entries_step :
    (c : ℕ) (cs : Bytes) (ps : List Bytes) (out : Env)
    → parse_entries ((c ∷ cs) ∷ ps) out ≡ parse_entries ps (add_entry (c ∷ cs) out)
unfolding parse_entries
parse_entries_step c cs ps out = refl

parse_entries-IsStorable :
    (ps : List Bytes) (out : Env)
    → verify_entries ps ≡ none
    → All (Lacks 0) ps
    → IsStorable out
    → IsStorable (parse_entries ps out)
parse_entries-IsStorable [] out v n s = unfold parse_entries in s
parse_entries-IsStorable ([] ∷ ps) out v n s = unfold parse_entries in s
parse_entries-IsStorable ((c ∷ cs) ∷ ps) out v (n, ns) s =
    let (a, later) = checked (ascii_codec (c ∷ cs)) refl in
    rw (parse_entries_step c cs ps out) (
      parse_entries-IsStorable ps (add_entry (c ∷ cs) out) later ns
        (add_entry-IsStorable (c ∷ cs) out a n s))
  where
    checked :
        (r : Option Text)
        → ascii_codec (c ∷ cs) ≡ r
        → All IsAscii (c ∷ cs) × (verify_entries ps ≡ none)
    checked none e = absurd (unfold verify_entries in ground arith)
    checked (some t) e = ((ascii_codec_sound (c ∷ cs) e).1, unfold verify_entries in ground arith)

pub nil-IsStorable : IsStorable []
nil-IsStorable = record { nodup = tt; entries = tt }

-- What `verify_block` tests, in the order in which it tests it.
pub record IsSound (block : Bytes) : Type 0 where
  pub size : length block ≡ env_block_size
  pub stored : unpack_u32 (take 4 block) ≡ ok (crc32 (drop 4 block) % 2 ^ 32)
  pub walked : verify_entries (split 0 (drop 4 block)) ≡ none

pub verify_block-IsSound :
    (block : Bytes) {m : Message} → verify_block block ≡ ok (true, m) → IsSound block
unfolding verify_block
verify_block-IsSound block h = record {
  size = ground arith;
  stored = ground arith;
  walked = ground arith;
}

-- A block that `verify_block` accepts has the right size and checksum, and `parse_env` reads an
-- environment from it that can be stored: distinct ASCII keys without `=`, ASCII values.
pub verify_block-IsStorable :
    (block : Bytes) {m : Message}
    → verify_block block ≡ ok (true, m)
    → (d : Env) × (parse_env block ≡ ok d)
      × IsStorable d
      × (length block ≡ env_block_size)
      × (unpack_u32 (take 4 block) ≡ ok (crc32 (drop 4 block) % 2 ^ 32))
unfolding parse_env
verify_block-IsStorable block h =
    let s = verify_block-IsSound block h in
    (
      parse_entries (split 0 (drop 4 block)) [],
      rw s.size,
      parse_entries-IsStorable _ [] s.walked (split-Lacks 0 (drop 4 block)) nil-IsStorable,
      s.size,
      s.stored,
    )

-- A character that is not ASCII, somewhere in a text or in an environment.
abbrev pub NotAscii : Text → Type 0
NotAscii t = all_ascii t ≡ false

abbrev pub AnyNotAscii : Env → Type 0
AnyNotAscii [] = ⊥
AnyNotAscii ((k, v) ∷ d) = NotAscii (entry_text k v) ⊎ AnyNotAscii d

encode_entries_not_ascii : (d : Env) → AnyNotAscii d → encode_entries d ≡ raise unicode_encode_error
unfolding encode_entries ascii_codec
encode_entries_not_ascii [] h = absurd h
encode_entries_not_ascii ((k, v) ∷ d) h = ground (arith, encode_entries_not_ascii d)

pub serialize_env_not_ascii :
    (d : Env) → AnyNotAscii d → serialize_env d ≡ raise unicode_encode_error
unfolding serialize_env
serialize_env_not_ascii d h = rw (encode_entries_not_ascii d h)
