-- ===== src/Env/Block/Storable.antt =====
-- The environments that a block can hold, and their entries as bytes, read back one after another.
use poly_firmware_build.Base.{
  ℕ, ◌+◌, ◌≡◌, refl, sym, ap, ◌∙◌, ◌≢◌, true, none, some, List, [], ◌∷◌, ◌++◌, arith, Bytes, Text,
  IsAscii, Lacks, All, All-append, length, contains, ascii_codec, all_ascii-All, append_assoc,
  append-nil, split_once-pair, text_eq_iff,
}
use poly_firmware_build.Host.{ok}
use poly_firmware_build.Env.Dict.{Env, lookup, insert, NodupKeys, insert-fresh, lookup-append_fresh}
use poly_firmware_build.Env.Block.{
  decode_entry, add_entry, parse_entries, entry_text, encode_entries, verify_entries,
}

-- An entry that the block can hold: ASCII, no zero byte, and no `=` in the key.
pub record IsEntry (k v : Text) : Type 0 where
  pub key_ascii : All IsAscii k
  pub value_ascii : All IsAscii v
  pub key_no_nul : Lacks 0 k
  pub value_no_nul : Lacks 0 v
  pub key_no_eq : Lacks b'=' k

abbrev pub AllEntries : Env → Type 0
AllEntries = All (λ (k, v). IsEntry k v)

-- An environment that the block can hold, its size left aside.
pub record IsStorable (d : Env) : Type 0 where
  pub nodup : NodupKeys d
  pub entries : AllEntries d

abbrev pub parts : Env → List Bytes
parts [] = []
parts ((k, v) ∷ d) = entry_text k v ∷ parts d

-- `sum(len(k)+len(v)+2 for k, v in entries.items())`, as the tool reports it.
abbrev pub used_bytes : Env → ℕ
used_bytes [] = 0
used_bytes ((k, v) ∷ d) = length k + length v + 2 + used_bytes d

-- The size of the payload before it is padded.
abbrev pub payload_size : Env → ℕ
payload_size [] = 2
payload_size d = used_bytes d + 1

entry_text-IsAscii : (k v : Text) → IsEntry k v → All IsAscii (entry_text k v)
entry_text-IsAscii k v h = All-append IsAscii k (b'=' ∷ v) h.key_ascii (omega arith, h.value_ascii)

entry_text-Lacks : (k v : Text) → IsEntry k v → Lacks 0 (entry_text k v)
entry_text-Lacks k v h =
    All-append (λ c. c ≢ 0) k (b'=' ∷ v) h.key_no_nul (omega arith, h.value_no_nul)

ascii_codec-All : (xs : List ℕ) → All IsAscii xs → ascii_codec xs ≡ some xs
unfolding ascii_codec
ascii_codec-All xs h = rw (all_ascii-All xs h)

pub parts-Lacks : (d : Env) → AllEntries d → All (Lacks 0) (parts d)
parts-Lacks [] h = tt
parts-Lacks ((k, v) ∷ d) (h, hs) = (entry_text-Lacks k v h, parts-Lacks d hs)

pub encode_entries-parts : (d : Env) → AllEntries d → encode_entries d ≡ ok (parts d)
unfolding encode_entries
encode_entries-parts [] h = refl
encode_entries-parts ((k, v) ∷ d) (h, hs) =
    rw (ascii_codec-All (entry_text k v) (entry_text-IsAscii k v h), encode_entries-parts d hs)

add_entry-insert :
    (k v : Text) (out : Env) → IsEntry k v → add_entry (entry_text k v) out ≡ insert k v out
unfolding add_entry decode_entry
add_entry-insert k v out h = ground (
  arith,
  ascii_codec-All (entry_text k v) (entry_text-IsAscii k v h),
  split_once-pair b'=' k v h.key_no_eq,
)

-- An entry is not empty, so the loop goes on behind it.
parse_entries-cons :
    (k v : Text) (rest : List Bytes) (out : Env)
    → parse_entries (entry_text k v ∷ rest) out
      ≡ parse_entries rest (add_entry (entry_text k v) out)
unfolding parse_entries
parse_entries-cons [] v rest out = refl
parse_entries-cons (c ∷ k) v rest out = refl

-- No key of the second is in the first.
abbrev pub Fresh : Env → Env → Type 0
Fresh out = All (λ (k, v). lookup k out ≡ none)

Fresh-append :
    (d out : Env) (k v : Text) → Fresh out d → lookup k d ≡ none → Fresh (out ++ (k, v) ∷ []) d
unfolding lookup
Fresh-append [] out k v h e = tt
Fresh-append ((j, w) ∷ d) out k v (h, hs) e = (
  lookup-append_fresh j k v out (ground (arith, text_eq_iff j k, text_eq_iff k j)) ∙ h,
  Fresh-append d out k v hs (ground arith),
)

pub parse_entries-parts :
    (d out : Env) (rest : List Bytes)
    → AllEntries d
    → NodupKeys d
    → Fresh out d
    → parse_entries (parts d ++ [] ∷ rest) out ≡ out ++ d
parse_entries-parts [] out rest h u f = unfold parse_entries in sym (append-nil out)
parse_entries-parts ((k, v) ∷ d) out rest (h, hs) (fresh, u) (f, fs) =
    parse_entries-cons k v (parts d ++ [] ∷ rest) out
    ∙ ap (parse_entries (parts d ++ [] ∷ rest))
        (add_entry-insert k v out h ∙ insert-fresh k v out f)
    ∙ parse_entries-parts d (out ++ (k, v) ∷ []) rest hs u (Fresh-append d out k v fs fresh)
    ∙ append_assoc out ((k, v) ∷ []) d

contains-entry : (k v : Text) → contains b'=' (entry_text k v) ≡ true
unfolding contains
contains-entry [] v = refl
contains-entry (c ∷ k) v = ground (arith, contains-entry k v)

verify_entries-cons :
    (k v : Text) (rest : List Bytes)
    → IsEntry k v
    → verify_entries (entry_text k v ∷ rest) ≡ verify_entries rest
verify_entries-cons k v rest h =
    step (entry_text k v) (entry_text-ne k v) (ascii_codec-All _ (entry_text-IsAscii k v h))
      (contains-entry k v)
  where
    entry_text-ne : (k v : Text) → entry_text k v ≢ []
    entry_text-ne [] v e = cc
    entry_text-ne (c ∷ k) v e = cc

    step :
        (e : Bytes)
        → e ≢ []
        → ascii_codec e ≡ some e
        → contains b'=' e ≡ true
        → verify_entries (e ∷ rest) ≡ verify_entries rest
    step [] ne a c = absurd (ne refl)
    step (x ∷ e) ne a c = unfold verify_entries in ground arith

pub verify_entries-parts :
    (d : Env) (rest : List Bytes) → AllEntries d → verify_entries (parts d ++ [] ∷ rest) ≡ none
verify_entries-parts [] rest h = unfold verify_entries in refl
verify_entries-parts ((k, v) ∷ d) rest (h, hs) =
    verify_entries-cons k v (parts d ++ [] ∷ rest) h ∙ verify_entries-parts d rest hs
