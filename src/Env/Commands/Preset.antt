-- ===== src/Env/Commands/Preset.antt =====
-- `preset-symmetric`: the entries that it writes, and that `verify` accepts the result.
use poly_firmware_build.Env.Block.Warnings.{verify_block-parse_warnings}
use poly_firmware_build.Base.{
  List, ℕ, ◌+◌, ◌≤◌, ◌≡◌, refl, ◌∙◌, ap, inl, inr, ◌⊎◌, true, false, Option, none, some, [], ◌∷◌,
  ◌++◌, arith, Bytes, Text, length, codes, contains, all_ascii, text_eq, if◌then◌else◌,
}
use mathlib.Core.Option
use poly_firmware_build.Host.{
  warned, warned_none, print_errs, ◌>>◌, pure, World, Message, message, ok, done, update_self,
}
use poly_firmware_build.Env.Dict.{
  Env, lookup, insert, has_key, set_default, lookup-insert, lookup-set_default, has_key-lookup,
}
use poly_firmware_build.Env.Slots.{env_data_size, slotaboot, slotbboot, bootcmd_ab}
use poly_firmware_build.Env.Block.{parse_warnings, parse_env}
use poly_firmware_build.Env.Block.Storable.{IsEntry, IsStorable, used_bytes, payload_size}
use poly_firmware_build.Env.Block.RoundTrip.{payload, block_of, parse_env-block, verify_block-block}
use poly_firmware_build.Env.Block.Sound.{entry_check, entry_check-IsEntry, insert-IsStorable}
use poly_firmware_build.Env.Commands.{
  macro_lines, save, load, preset, cmd_preset_symmetric, cmd_verify, missing_keys, must_have,
}
use poly_firmware_build.Env.Commands.Save.{load-block_of, saved, save-saved}
use poly_firmware_build.Env.Commands.Modify.{load-src, used_bytes-insert, payload_size-le}

abbrev pub k_slotaboot : Text
k_slotaboot = codes "slotaboot"

abbrev pub k_slotbboot : Text
k_slotbboot = codes "slotbboot"

abbrev pub k_bootcmd_ab : Text
k_bootcmd_ab = codes "bootcmd_ab"

abbrev pub k_slot : Text
k_slot = codes "slot"

slotaboot-IsEntry : IsEntry k_slotaboot slotaboot
unfolding entry_check slotaboot contains all_ascii
slotaboot-IsEntry = entry_check-IsEntry k_slotaboot slotaboot refl

slotbboot-IsEntry : IsEntry k_slotbboot slotbboot
unfolding entry_check slotbboot contains all_ascii
slotbboot-IsEntry = entry_check-IsEntry k_slotbboot slotbboot refl

bootcmd_ab-IsEntry : IsEntry k_bootcmd_ab bootcmd_ab
unfolding entry_check bootcmd_ab contains all_ascii
bootcmd_ab-IsEntry = entry_check-IsEntry k_bootcmd_ab bootcmd_ab refl

slot-IsEntry : IsEntry k_slot (codes "b")
unfolding entry_check contains all_ascii
slot-IsEntry = entry_check-IsEntry k_slot (codes "b") refl

macro_sizes : (length slotaboot ≡ 262) × (length slotbboot ≡ 263) × (length bootcmd_ab ≡ 74)
unfolding slotaboot slotbboot bootcmd_ab
macro_sizes = (refl, refl, refl)

-- The bytes that the four entries take at most: 640 and the separators of each.
abbrev pub preset_room : ℕ
preset_room = 640

set_default-cases :
    (k v : Text) (d : Env) → (set_default k v d ≡ d) ⊎ (set_default k v d ≡ insert k v d)
unfolding set_default
set_default-cases k v d = ground arith

-- The preset without the default slot.
abbrev with_macros : Env → Env
with_macros d =
    insert k_bootcmd_ab bootcmd_ab (insert k_slotbboot slotbboot (insert k_slotaboot slotaboot d))

with_macros-IsStorable : (d : Env) → IsStorable d → IsStorable (with_macros d)
with_macros-IsStorable d s =
    insert-IsStorable _ _ _ bootcmd_ab-IsEntry
      (insert-IsStorable _ _ _ slotbboot-IsEntry (insert-IsStorable _ _ _ slotaboot-IsEntry s))

used_bytes-with_macros : (d : Env) → used_bytes (with_macros d) ≤ used_bytes d + 633
used_bytes-with_macros d =
    let a = insert k_slotaboot slotaboot d in
    let b = insert k_slotbboot slotbboot a in
    omega (
      arith,
      macro_sizes,
      used_bytes-insert k_slotaboot slotaboot d,
      used_bytes-insert k_slotbboot slotbboot a,
      used_bytes-insert k_bootcmd_ab bootcmd_ab b,
    )

pub preset-IsStorable : (d : Env) → IsStorable d → IsStorable (preset d)
unfolding preset
preset-IsStorable d s = elim (set_default-cases k_slot (codes "b") (with_macros d)) [
  | inl same ↦ rw same (with_macros-IsStorable d s)
  | inr added ↦ rw added (insert-IsStorable _ _ _ slot-IsEntry (with_macros-IsStorable d s))
]

pub used_bytes-preset : (d : Env) → used_bytes (preset d) ≤ used_bytes d + preset_room
unfolding preset
used_bytes-preset d = elim (set_default-cases k_slot (codes "b") (with_macros d)) [
  | inl same ↦ rw same (omega (arith, used_bytes-with_macros d))
  | inr added ↦ rw added (
      omega (arith, used_bytes-with_macros d, used_bytes-insert k_slot (codes "b") (with_macros d)))
]

-- What is found after the preset: the three macros, the slot that was set before or else "b", and
-- under any other key what was there before.
pub lookup-preset :
    (d : Env)
    → (lookup k_slotaboot (preset d) ≡ some slotaboot)
      × (lookup k_slotbboot (preset d) ≡ some slotbboot)
      × (lookup k_bootcmd_ab (preset d) ≡ some bootcmd_ab)
      × (lookup k_slot (preset d) ≡ some (Option.get_or (lookup k_slot d) (codes "b")))
      × ((j : Text)
          → text_eq j k_slotaboot ≡ false
          → text_eq j k_slotbboot ≡ false
          → text_eq j k_bootcmd_ab ≡ false
          → text_eq j k_slot ≡ false
          → lookup j (preset d) ≡ lookup j d)
lookup-preset d = (
  lookup_chain k_slotaboot ∙ (unfold text_eq in refl),
  lookup_chain k_slotbboot ∙ (unfold text_eq in refl),
  lookup_chain k_bootcmd_ab ∙ (unfold text_eq in refl),
  lookup_chain k_slot
      ∙ (unfold text_eq in
          ap (λ (o : Option Text). some (Option.get_or o (codes "b"))) (lookup_macros k_slot)),
  λ j a b c s. lookup_chain j ∙ rw (s, c, b, a),
)
  where
    macros : Text → Option Text
    macros j =
        if text_eq j k_bootcmd_ab
        then some bootcmd_ab
        else if text_eq j k_slotbboot
        then some slotbboot
        else if text_eq j k_slotaboot
        then some slotaboot
        else lookup j d

    lookup_macros : (j : Text) → lookup j (with_macros d) ≡ macros j
    lookup_macros j = simp lookup-insert

    lookup_chain :
        (j : Text)
        → lookup j (preset d) ≡ (
            if text_eq j k_slot
            then some (Option.get_or (lookup k_slot (with_macros d)) (codes "b"))
            else macros j)
    lookup_chain j =
        unfold preset in
        lookup-set_default j k_slot (codes "b") (with_macros d) ∙ rw (lookup_macros j)

has_key-some : (k : Text) (d : Env) {v : Text} → lookup k d ≡ some v → has_key k d ≡ true
has_key-some k d h = has_key-lookup k d ∙ rw h

missing_keys-preset : (d : Env) → missing_keys must_have (preset d) ≡ []
unfolding missing_keys
missing_keys-preset d =
    let l = lookup-preset d in
    rw (has_key-some k_slotaboot (preset d) l.0, has_key-some k_slotbboot (preset d) l.1)

-- What `preset-symmetric` starts from: the source's environment, or none where there is no file.
abbrev pub Source : Text → World → Env → Type 0
Source src w d =
    ((w.files src ≡ none) × (d ≡ []))
    ⊎ ((b : Bytes) × (w.files src ≡ some b) × (parse_env b ≡ ok d))

-- The line that `verify` prints for a good block.
abbrev pub ok_line : Message
ok_line = message "OK: ok" [] []

-- From a missing file, or a storable environment with room for 640 bytes more, `preset-symmetric`
-- exits with 0 and writes the preset; `verify` on the output then prints "OK: ok" and exits with 0.
pub preset-verify :
    (src dst : Text) (w : World) {d : Env}
    → Source src w d
    → IsStorable d
    → used_bytes d + preset_room + 2 ≤ env_data_size
    → (w' : World) × (cmd_preset_symmetric (src ∷ dst ∷ []) w ≡ done 0 w')
      × (load dst w' ≡ done (preset d) w')
      × (cmd_verify (dst ∷ []) w' ≡ done 0 (record w' { stdout = w.stdout ++ ok_line ∷ [] }))
unfolding cmd_preset_symmetric cmd_verify
preset-verify src dst w {d} source s room =
    let p = preset-IsStorable d s in
    let fits : payload_size (preset d) ≤ env_data_size =
      omega (arith, used_bytes-preset d, payload_size-le (preset d)) in
    let block = block_of (payload (preset d)) in
    let w1 = warned (source_lines source) w in
    let w2 = warned macro_lines (saved (preset d) p fits dst w1) in
    (
      w2,
      preset_from source ∙ rw (save-saved (preset d) p fits dst w1),
      load-block_of (preset d) p fits dst w2 (update_self w.files dst block),
      rw
          (
            update_self w.files dst block,
            verify_block-block (preset d) p fits,
            parse_env-block (preset d) p fits,
            missing_keys-preset d,
            verify_block-parse_warnings block (verify_block-block (preset d) p fits),
          )
          (ap (done 0) (warned_none _)),
    )
  where
    source_lines : Source src w d → List Message
    source_lines (inl x) = message "note: {} missing — starting from empty env" [] (src ∷ []) ∷ []
    source_lines (inr (b, there, parses)) = parse_warnings b

    preset_from :
        (x : Source src w d)
        → cmd_preset_symmetric (src ∷ dst ∷ []) w
          ≡ (save (preset d) dst >> (print_errs macro_lines >> pure 0)) (warned (source_lines x) w)
    preset_from (inl (missing, empty)) = rw (missing, empty)
    preset_from (inr (b, there, parses)) = rw there (rw (load-src src dst w there parses s))
