-- ===== src/Env/Commands.antt =====
-- The subcommands and `main`. What a subcommand returns is its exit status.
pub mod Save
pub mod Atomic
pub mod Modify
pub mod Preset
use poly_firmware_build.Env.Block.Storable.{used_bytes}
use Prim.Native.String
use poly_firmware_build.Base.{
  join, String, ℕ, Bool, true, false, not, ◌||◌, Option, none, some, List, [], ◌∷◌, ◌++◌, ◌==◌,
  if◌then◌else◌, Bytes, Text, codes, length, split_once, text_eq,
}
use poly_firmware_build.Host.{
  print_err, print_errs, Result, ok, raise, Message, message, M, ◌>>=◌, ◌>>◌, pure, lift, read_file,
  write_file, path_exists, print,
}
use poly_firmware_build.Env.Usage.{usage_text}
use poly_firmware_build.Env.Dict.{Env, insert, erase, has_key, set_default}
use poly_firmware_build.Env.Slots.{env_data_size, env_block_size, slotaboot, slotbboot, bootcmd_ab}
use poly_firmware_build.Env.Block.{parse_warnings, parse_env, serialize_env, verify_block}

-- `parse_env` with its warnings.
abbrev pub parse : Bytes → M Env
parse block = do entries ← lift (parse_env block); print_errs (parse_warnings block); pure entries

unfoldable pub load : Text → M Env
load path = do block ← read_file path; parse block

-- A line that ends in the message of `verify_block`.
abbrev pub with_verdict : String → List ℕ → List Text → Message → Message
with_verdict format numbers texts msg = record {
  format = String.◌++◌ format msg.format;
  numbers = numbers ++ msg.numbers;
  texts = texts ++ msg.texts;
}

abbrev pub saved_line : Env → Text → Message → Message
saved_line entries path =
    with_verdict "wrote {}: {} entries, {}/{} bytes used — verify: "
      (length entries ∷ used_bytes entries ∷ env_data_size ∷ []) (path ∷ [])

unfoldable pub save : Env → Text → M (Unit {0})
save entries path = do
  block ← lift (serialize_env entries)
  write_file path block
  (good, msg) ← lift (verify_block block)
  print_err (saved_line entries path msg)

-- What `ssh` leaves: its exit status, its standard output, and its standard error as
-- `decode("utf-8", "replace")` reads it.
pub record Completed : Type 0 where
  pub returncode : ℕ
  pub stdout : Bytes
  pub stderr : Text

abbrev pub default_host : Text
default_host = codes "root@192.168.10.244"

abbrev pub panel_dd_read : Text
panel_dd_read = codes "dd if=/dev/mmcblk2 bs=4096 skip=1024 count=1 2>/dev/null"

-- `argv[i] if len(argv) > i else d`
abbrev pub arg_or : List Text → ℕ → Text → Text
arg_or [] i d = d
arg_or (a ∷ rest) ℕ.zero d = a
arg_or (a ∷ rest) (ℕ.suc i) d = arg_or rest i d

-- `subprocess.run` of a command line is the parameter `run`.
unfoldable pub cmd_read : (List Text → Completed) → List Text → M ℕ
cmd_read run argv =
    let host = arg_or argv 0 default_host in
    let out_path = arg_or argv 1 (codes "/tmp/env_orig.bin") in
    let cmd = codes "ssh" ∷ host ∷ panel_dd_read ∷ [] in
    let res = run cmd in
    do
      print_err (message "+ {}" [] (join 32 cmd ∷ []))
      if not (res.returncode == 0)
          then (do print_err (message "{}" [] (res.stderr ∷ [])); pure res.returncode)
          else if not (length res.stdout == env_block_size)
          then (do
            print_err (
                message "error: dd returned {} bytes, expected {}"
                  (length res.stdout ∷ env_block_size ∷ []) [])
            pure 1)
          else (do
            write_file out_path res.stdout
            (good, msg) ← lift (verify_block res.stdout)
            print_err (
                with_verdict "wrote {} ({} bytes) — verify: " (length res.stdout ∷ [])
                  (out_path ∷ []) msg)
            pure (if good then 0 else 2))

abbrev show_entry : Text × Text → Message
show_entry (k, v) = message "{}={}" [] (k ∷ v ∷ [])

print_entries : Env → M (Unit {0})
print_entries [] = pure tt
print_entries (e ∷ d) = do print (show_entry e); print_entries d

unfoldable pub cmd_show : List Text → M ℕ
unfolding print_entries
cmd_show [] = do print_err (message "usage: show <in.bin>" [] []); pure 2
cmd_show (path ∷ _) = do
  block ← read_file path
  entries ← parse block
  print_entries entries
  print_err
      (message "\n# {} entries, payload {} bytes" (length entries ∷ used_bytes entries ∷ []) [])
  pure 0

-- The loop of `modify`; `none` is an argument with no `=`.
unfoldable pub apply_args : List Text → Env → Option Env
apply_args [] entries = some entries
apply_args (kv ∷ kvs) entries = elim (split_once b'=' kv) [
  | none ↦ none
  | some (k, v) ↦ apply_args kvs (insert k v entries)
]

-- The argument at which that loop returns.
abbrev pub bad_arg : List Text → Text
bad_arg [] = []
bad_arg (kv ∷ kvs) = elim (split_once b'=' kv) [ none ↦ kv | some p ↦ bad_arg kvs ]

abbrev pub save_args : Text → List Text → Option Env → M ℕ
save_args dst kvs none = do
  print_err (message "error: bad arg {!r} (need key=value)" [] (bad_arg kvs ∷ []))
  pure 2
save_args dst kvs (some entries) = do save entries dst; pure 0

unfoldable pub cmd_modify : List Text → M ℕ
cmd_modify (src ∷ dst ∷ kv ∷ kvs) = do
  entries ← load src
  save_args dst (kv ∷ kvs) (apply_args (kv ∷ kvs) entries)
cmd_modify _ = do
  print_err (message "usage: modify <in.bin> <out.bin> <key=value>..." [] [])
  pure 2

-- The loop of `delete`.
unfoldable pub erase_all : List Text → Env → Env
erase_all [] entries = entries
erase_all (k ∷ ks) entries = erase_all ks (erase k entries)

unfoldable pub cmd_delete : List Text → M ℕ
cmd_delete (src ∷ dst ∷ key ∷ keys) = do
  entries ← load src
  save (erase_all (key ∷ keys) entries) dst
  pure 0
cmd_delete _ = do print_err (message "usage: delete <in.bin> <out.bin> <key>..." [] []); pure 2

-- The four entries that the preset writes.
unfoldable pub preset : Env → Env
preset entries = set_default (codes "slot") (codes "b") (
    insert (codes "bootcmd_ab") bootcmd_ab
      (insert (codes "slotbboot") slotbboot (insert (codes "slotaboot") slotaboot entries)))

-- `entries` before the preset: the file's, or none where there is no file.
abbrev pub load_or_empty : Text → Bool → M Env
load_or_empty src true = load src
load_or_empty src false = do
  print_err (message "note: {} missing — starting from empty env" [] (src ∷ []))
  pure []

-- The three macros, as the preset has just set them.
abbrev pub macro_lines : List Message
macro_lines =
    message "\n--- slotaboot ---\n{}" [] (slotaboot ∷ [])
    ∷ message "\n--- slotbboot ---\n{}" [] (slotbboot ∷ [])
    ∷ message "\n--- bootcmd_ab ---\n{}" [] (bootcmd_ab ∷ [])
    ∷ []

unfoldable pub cmd_preset_symmetric : List Text → M ℕ
cmd_preset_symmetric (src ∷ dst ∷ _) = do
  exists ← path_exists src
  entries ← load_or_empty src exists
  save (preset entries) dst
  print_errs macro_lines
  pure 0
cmd_preset_symmetric _ = do
  print_err (message "usage: preset-symmetric <in.bin> <out.bin>" [] [])
  pure 2

-- `[k for k in must_have if k not in entries]`
unfoldable pub missing_keys : List Text → Env → List Text
missing_keys [] entries = []
missing_keys (k ∷ ks) entries =
    let rest = missing_keys ks entries in if has_key k entries then rest else k ∷ rest

abbrev pub must_have : List Text
must_have = codes "slotaboot" ∷ codes "slotbboot" ∷ []

-- The rest of `verify`, behind its first line of output.
abbrev pub report_missing : Bool → List Text → M ℕ
report_missing good [] = pure (if good then 0 else 1)
report_missing good (k ∷ ks) = do print (message "missing keys: {}" [] (k ∷ ks)); pure 1

abbrev prefixed : Bool → Message → Message
prefixed good m = record m { format = String.◌++◌ (if good then "OK: " else "FAIL: ") m.format }

unfoldable pub cmd_verify : List Text → M ℕ
cmd_verify [] = do print_err (message "usage: verify <in.bin>" [] []); pure 2
cmd_verify (path ∷ _) = do
  block ← read_file path
  (good, msg) ← lift (verify_block block)
  print (prefixed good msg)
  entries ← if good then parse block else pure []
  report_missing good (missing_keys must_have entries)

pub data Subcommand : Type 0 where
  read show modify delete preset_symmetric verify : Subcommand

-- The table `SUBCOMMANDS`.
unfoldable pub subcommand : Text → Option Subcommand
subcommand sub =
    if text_eq sub (codes "read")
    then some read
    else if text_eq sub (codes "show")
    then some show
    else if text_eq sub (codes "modify")
    then some modify
    else if text_eq sub (codes "delete")
    then some delete
    else if text_eq sub (codes "preset-symmetric")
    then some preset_symmetric
    else if text_eq sub (codes "verify")
    then some verify
    else none

unfoldable pub dispatch : (List Text → Completed) → Subcommand → List Text → M ℕ
dispatch run read = cmd_read run
dispatch run show = cmd_show
dispatch run modify = cmd_modify
dispatch run delete = cmd_delete
dispatch run preset_symmetric = cmd_preset_symmetric
dispatch run verify = cmd_verify

-- The text of the module, on standard error.
abbrev pub doc : Message
doc = message "{}" [] (usage_text ∷ [])

unfoldable pub main : (List Text → Completed) → List Text → M ℕ
main run [] = do print_err doc; pure 0
main run (sub ∷ argv) =
    if text_eq sub (codes "-h") || text_eq sub (codes "--help") || text_eq sub (codes "help")
    then (do print_err doc; pure 0)
    else elim (subcommand sub) [
      | none ↦ do print_errs (message "unknown subcommand: {}" [] (sub ∷ []) ∷ doc ∷ []); pure 2
      | some command ↦ dispatch run command argv
    ]
