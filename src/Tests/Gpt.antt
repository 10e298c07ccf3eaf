-- ===== src/Tests/Gpt.antt =====
-- The restore image of a table that is empty but for its signature.
use poly_firmware_build.Base.{
  ℕ, [], ◌*◌, ◌≡◌, refl, true, some, none, ◌++◌, arith, Bytes, Text, codes, text_eq, replicate,
  length, length-append, length-replicate, slice, take, drop, if◌then◌else◌,
}
use poly_firmware_build.Host.{World, done, holding}
use poly_firmware_build.Sparse.Flash.{flash}
use poly_firmware_build.Gpt.{sector, total_sectors, np, nb, ndc, path_in, make_gpt_restore}
use poly_firmware_build.Gpt.Restore.{make_gpt_restore-flash}

abbrev signature : Bytes
signature = codes "EFI PART"

abbrev primary : Bytes
primary = replicate 512 0 ++ (signature ++ replicate 16888 0)

abbrev backup : Bytes
backup = replicate 16896 0

primary_size : length primary ≡ np * sector
primary_size = omega (
  arith,
  length-append (replicate 512 0) (signature ++ replicate 16888 0),
  length-append signature (replicate 16888 0),
  length-replicate {A = ℕ} 512 0,
  length-replicate {A = ℕ} 16888 0,
)

backup_size : length backup ≡ nb * sector
backup_size = length-replicate {A = ℕ} 16896 0

primary_signed : text_eq (slice primary 512 520) signature ≡ true
unfolding text_eq replicate take drop
primary_signed = refl

abbrev here : Text
here = codes "gpt-restore"

abbrev world : World
world = record {
  files = λ p.
      if text_eq p (path_in here (codes "gpt-primary.bin"))
      then some primary
      else if text_eq p (path_in here (codes "gpt-backup.bin"))
      then some backup
      else none;
  stdout = [];
  stderr = [];
}

world-primary : world.files (path_in here (codes "gpt-primary.bin")) ≡ some primary
unfolding text_eq
world-primary = refl

world-backup : world.files (path_in here (codes "gpt-backup.bin")) ≡ some backup
unfolding text_eq
world-backup = refl

make_gpt_restore-flash_example :
    (img : Bytes) × (w' : World) × (make_gpt_restore here world ≡ done tt w')
    × (w'.files ≡ (holding (path_in here (codes "tc8-gpt-restore.simg")) img world).files)
    × ((disk : Bytes)
        → length disk ≡ total_sectors * sector
        → flash img disk
          ≡ some (primary ++ (take (ndc * sector) (drop (np * sector) disk) ++ backup)))
make_gpt_restore-flash_example =
    make_gpt_restore-flash primary backup primary_size backup_size here world primary_signed
      world-primary world-backup
