-- ===== src/Gpt.antt =====
-- gpt-restore/make-gpt-restore.py: a sparse image of the whole disk that writes the two copies of
-- the partition table and leaves everything between them alone.
pub mod Restore
use poly_firmware_build.Base.{
  ℕ, ◌+◌, ◌-◌, ◌*◌, ◌&&◌, List, [], ◌∷◌, ◌++◌, ◌==◌, Bytes, Text, codes, length, slice, text_eq,
}
use poly_firmware_build.Host.{
  Result, ok, bind, check, from_option, struct_error, assertion_error, M, ◌>>=◌, ◌>>◌, lift,
  read_file, write_file, print, Message, message,
}
use poly_firmware_build.Pack.{little, pack}

abbrev pub sector : ℕ
sector = 512

abbrev pub total_sectors : ℕ
total_sectors = 30535680

abbrev pub np : ℕ
np = 34

abbrev pub nb : ℕ
nb = 33

abbrev pub ndc : ℕ
ndc = total_sectors - np - nb

abbrev pub raw : ℕ
raw = 0xcac1

abbrev pub dont_care : ℕ
dont_care = 0xcac3

-- The test on the primary table.
unfoldable pub check_primary : Bytes → Result (Unit {0})
check_primary prim =
    check (length prim == 34 * sector && text_eq (slice prim 512 520) (codes "EFI PART"))
      (assertion_error "bad primary GPT" [])

unfoldable pub check_backup : Bytes → Result (Unit {0})
check_backup back = check (length back == 33 * sector) (assertion_error "bad backup GPT" [])

-- `struct.pack` of four or nine fields, or its exception.
abbrev pack_or_raise : List (ℕ × ℕ) → Result Bytes
pack_or_raise fields = from_option struct_error (pack little fields)

-- The value of `out`.
unfoldable pub restore_image : Bytes → Bytes → Result Bytes
restore_image prim back =
    bind
      (pack_or_raise (
        (4, 0xed26ff3a)
        ∷ (2, 1)
        ∷ (2, 0)
        ∷ (2, 28)
        ∷ (2, 12)
        ∷ (4, sector)
        ∷ (4, total_sectors)
        ∷ (4, 3)
        ∷ (4, 0)
        ∷ []))
      λ header.
        bind (pack_or_raise ((2, raw) ∷ (2, 0) ∷ (4, np) ∷ (4, 12 + length prim) ∷ [])) λ first.
          bind (pack_or_raise ((2, dont_care) ∷ (2, 0) ∷ (4, ndc) ∷ (4, 12) ∷ [])) λ middle.
            bind (pack_or_raise ((2, raw) ∷ (2, 0) ∷ (4, nb) ∷ (4, 12 + length back) ∷ []))
              λ last. ok (header ++ (first ++ (prim ++ (middle ++ (last ++ back)))))

-- `os.path.join(HERE, name)`, for a directory that does not end in a slash.
abbrev pub path_in : Text → Text → Text
path_in here name = here ++ b'/' ∷ name

abbrev pub summary : Text → Bytes → Message
summary path out =
    message "wrote {}: {} bytes on-wire, expands to {} bytes"
      (length out ∷ total_sectors * sector ∷ []) (path ∷ [])

-- The whole script, in the directory `here`.
unfoldable pub make_gpt_restore : Text → M (Unit {0})
make_gpt_restore here = do
  prim ← read_file (path_in here (codes "gpt-primary.bin"))
  back ← read_file (path_in here (codes "gpt-backup.bin"))
  lift (check_primary prim)
  lift (check_backup back)
  out ← lift (restore_image prim back)
  write_file (path_in here (codes "tc8-gpt-restore.simg")) out
  print (summary (path_in here (codes "tc8-gpt-restore.simg")) out)
