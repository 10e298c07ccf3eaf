-- ===== src/Tests/Env.antt =====
-- The u-boot environment editor on small blocks.
use poly_firmware_build.Env.Block.Warnings.{verify_block-iff-parse_warnings}
use poly_firmware_build.Base.{
  split, contains, all_ascii_sound, drop, join, ◌↔◌, ascii_codec, ◌%◌, ◌^◌, ◌≤◌, ◌≡◌, refl, true,
  false, none, some, List, [], ◌∷◌, arith, Bytes, Text, codes, text_eq, replicate, length, inr,
  if◌then◌else◌, split_once, all_ascii, take, drop,
}
use mathlib.Core.Option
use poly_firmware_build.Host.{World, ok, done, message}
use poly_firmware_build.Pack.{unpack, unpack_fields, of_uint, crc32, uint, little, big}
use poly_firmware_build.Env.Dict.{Env, lookup, insert}
use poly_firmware_build.Env.Slots.{env_block_size, env_data_size, slotaboot, slotbboot, bootcmd_ab}
use poly_firmware_build.Env.Block.{
  crc_warnings, entry_warnings, parse_warnings, parse_entries, parse_env, serialize_env,
  verify_block, add_entry, decode_entry, unpack_u32,
}
use poly_firmware_build.Env.Block.Storable.{IsStorable, payload_size}
use poly_firmware_build.Env.Block.RoundTrip.{
  block_of, payload, serialize_env-parse_env, parse_env-block, verify_block-block,
}
use poly_firmware_build.Env.Block.Serialized.{Serialized, serialize_env-Serialized}
use poly_firmware_build.Env.Block.Sound.{
  verify_block-IsSound, entry_check, entry_check-IsEntry, verify_block-IsStorable,
}
use poly_firmware_build.Env.Commands.{
  Completed, load, cmd_modify, cmd_delete, cmd_preset_symmetric, cmd_verify, main, preset,
}
use poly_firmware_build.Env.Commands.Atomic.{Ends, main-Ends}
use poly_firmware_build.Env.Commands.Modify.{
  IsArg, assigned, listed, cmd_modify-load, cmd_delete-load,
}
use poly_firmware_build.Env.Commands.Preset.{
  ok_line, preset-verify, lookup-preset, k_slotaboot, k_slotbboot, k_bootcmd_ab, k_slot,
}

crc32_check : crc32 (codes "123456789") ≡ 0xcbf43926
unfolding crc32
crc32_check = refl

uint_both : (uint little 4 0x01020304 ≡ 4 ∷ 3 ∷ 2 ∷ 1 ∷ []) × (uint big 2 0x0102 ≡ 1 ∷ 2 ∷ [])
unfolding uint
uint_both = (refl, refl)

slotaboot_text :
    slotaboot
    ≡ codes
        "mmc dev 1; mmc read 0x40000000 0x8000 0x14800; mmc read 0x43400000 0x4000 0x100; setenv bootargs \"console=tty0 console=ttymxc1,115200 earlycon=ec_imx6q,0x30890000,115200 keep_bootcon panic=10 androidboot.slot_suffix=_a rw rootwait\"; booti 0x40000800 - 0x43400000"
unfolding slotaboot
slotaboot_text = refl

-- A skipped entry with no `=`, a repeated key, and an entry behind the empty one.
parse_entries_example :
    parse_entries (codes "a=1" ∷ codes "b" ∷ codes "c=x=y" ∷ codes "a=2" ∷ [] ∷ codes "d=4" ∷ []) []
    ≡ (codes "a", codes "2") ∷ (codes "c", codes "x=y") ∷ []
unfolding parse_entries add_entry decode_entry insert split_once text_eq ascii_codec
parse_entries_example = refl

abbrev small : Env
small = (codes "slot", codes "a") ∷ (codes "mac", codes "00:11") ∷ []

small-IsStorable : IsStorable small
unfolding entry_check lookup
small-IsStorable = record {
  nodup = (refl, (refl, tt));
  entries = (
    entry_check-IsEntry (codes "slot") (codes "a") refl,
    (entry_check-IsEntry (codes "mac") (codes "00:11") refl, tt),
  );
}

small-fits : payload_size small ≤ env_data_size
small-fits = omega arith

abbrev small_block : Bytes
small_block = block_of (payload small)

abbrev src : Text
src = codes "in.bin"

abbrev dst : Text
dst = codes "out.bin"

abbrev world : World
world = record {
  files = λ p. if text_eq p src then some small_block else none;
  stdout = [];
  stderr = [];
}

world-src : world.files src ≡ some small_block
unfolding text_eq
world-src = refl

abbrev no_ssh : List Text → Completed
no_ssh command = record { returncode = 255; stdout = []; stderr = [] }

serialize_env-parse_env_example :
    (block : Bytes) × (serialize_env small ≡ ok block)
    × (length block ≡ env_block_size)
    × (parse_env block ≡ ok small)
    × (verify_block block ≡ ok (true, message "ok" [] []))
serialize_env-parse_env_example = serialize_env-parse_env small small-IsStorable small-fits

verify_block-IsStorable_example :
    (d : Env) × (parse_env small_block ≡ ok d)
    × IsStorable d
    × (length small_block ≡ env_block_size)
    × (unpack_u32 (take 4 small_block) ≡ ok (crc32 (drop 4 small_block) % 2 ^ 32))
verify_block-IsStorable_example =
    verify_block-IsStorable small_block (verify_block-block small small-IsStorable small-fits)

abbrev long_value : Text
long_value = replicate 4100 b'x'

serialize_env-Serialized_example :
    Serialized ((codes "k", long_value) ∷ []) (serialize_env ((codes "k", long_value) ∷ []))
serialize_env-Serialized_example = serialize_env-Serialized ((codes "k", long_value) ∷ [])

main-Ends_example :
    Ends dst world (main no_ssh (codes "modify" ∷ src ∷ dst ∷ codes "slot=b" ∷ []) world)
main-Ends_example =
    main-Ends no_ssh (codes "modify") (src ∷ dst ∷ codes "slot=b" ∷ []) world
      (unfold text_eq in refl)

slot_b-IsArg : IsArg (codes "slot=b")
slot_b-IsArg = record {
  ascii = omega arith;
  no_nul = omega arith;
  has_eq = unfold split_once in λ e. cc;
}

cmd_modify-load_example :
    (w' : World) × (d' : Env) × (cmd_modify (src ∷ dst ∷ codes "slot=b" ∷ []) world ≡ done 0 w')
    × (load dst w' ≡ done d' w')
    × (w'.stdout ≡ [])
    × ((j : Text) → lookup j d' ≡ assigned j (codes "slot=b" ∷ []) (lookup j small))
cmd_modify-load_example =
    cmd_modify-load src dst world world-src (parse_env-block small small-IsStorable small-fits)
      small-IsStorable (codes "slot=b") [] (slot_b-IsArg, tt) (omega arith)

cmd_delete-load_example :
    (w' : World) × (d' : Env) × (cmd_delete (src ∷ dst ∷ codes "slot" ∷ []) world ≡ done 0 w')
    × (load dst w' ≡ done d' w')
    × (w'.stdout ≡ [])
    × ((j : Text) → lookup j d' ≡ (if listed j (codes "slot" ∷ []) then none else lookup j small))
cmd_delete-load_example =
    cmd_delete-load src dst world world-src (parse_env-block small small-IsStorable small-fits)
      small-IsStorable (codes "slot") [] small-fits

preset-verify_example :
    (w' : World) × (cmd_preset_symmetric (src ∷ dst ∷ []) world ≡ done 0 w')
    × (load dst w' ≡ done (preset small) w')
    × (cmd_verify (dst ∷ []) w' ≡ done 0 (record w' { stdout = ok_line ∷ [] }))
preset-verify_example =
    preset-verify src dst world
      (inr (small_block, world-src, parse_env-block small small-IsStorable small-fits))
      small-IsStorable (omega arith)

lookup-preset_example :
    (lookup k_slotaboot (preset small) ≡ some slotaboot)
    × (lookup k_slotbboot (preset small) ≡ some slotbboot)
    × (lookup k_bootcmd_ab (preset small) ≡ some bootcmd_ab)
    × (lookup k_slot (preset small) ≡ some (Option.get_or (lookup k_slot small) (codes "b")))
    × ((j : Text)
        → text_eq j k_slotaboot ≡ false
        → text_eq j k_slotbboot ≡ false
        → text_eq j k_bootcmd_ab ≡ false
        → text_eq j k_slot ≡ false
        → lookup j (preset small) ≡ lookup j small)
lookup-preset_example = lookup-preset small

small_block-ascii : all_ascii (drop 4 small_block) ≡ true
unfolding all_ascii drop uint join replicate
small_block-ascii = refl

-- A stored checksum that differs and an entry with no `=`.
two_warnings :
    parse_warnings (0 ∷ 0 ∷ 0 ∷ 0 ∷ codes "ab")
    ≡ message "warning: stored CRC {:#010x} != computed {:#010x}" (0 ∷ 0x9e83486d ∷ []) []
      ∷ message "warning: malformed entry (no '='): {!r}" [] (codes "ab" ∷ [])
      ∷ []
unfolding crc_warnings entry_warnings decode_entry split contains ascii_codec all_ascii drop take
    crc32 unpack_u32 unpack unpack_fields of_uint
two_warnings = refl

verify_block-iff-parse_warnings_example :
    (verify_block small_block ≡ ok (true, message "ok" [] [])) ↔ (parse_warnings small_block ≡ [])
verify_block-iff-parse_warnings_example =
    verify_block-iff-parse_warnings small_block
      (verify_block-IsSound small_block (verify_block-block small small-IsStorable small-fits)).size
      (all_ascii_sound (drop 4 small_block) small_block-ascii)
