-- ===== src/Tests/Config.antt =====
-- The config blob of one line, alone and with a bootloader of three bytes.
use poly_firmware_build.Base.{
  ℕ, ◌+◌, ◌≤◌, ◌≡◌, refl, none, some, List, [], ◌∷◌, ◌++◌, arith, Bytes, Text, codes, text_eq,
  replicate, length, length-replicate, if◌then◌else◌, utf8, utf8_decode, split, join, All, IsPoint,
  Lacks,
}
use poly_firmware_build.Host.{World, ok, done, holding}
use poly_firmware_build.Config.{
  bl_hdr_off, config_text, rstrip_newlines, take_bootloader, take_lines, text_lines,
  universal_newlines, main,
}
use poly_firmware_build.Config.Reader.{read_config, read_bootloader}
use poly_firmware_build.Config.Lines.{main-main_from}
use poly_firmware_build.Config.Written.{main-read_config, main-read_bootloader}

abbrev sha256 : Bytes → Bytes
sha256 b = replicate 32 0

digest : (b : Bytes) → length (sha256 b) ≡ 32
digest b = length-replicate {A = ℕ} 32 0

abbrev lines : List Text
lines = codes "A=1" ∷ []

abbrev payload : Bytes
payload = codes "A=1\n"

lines-payload : utf8 (config_text lines) ≡ some payload
unfolding utf8 rstrip_newlines join
lines-payload = refl

abbrev loader : Bytes
loader = 1 ∷ 2 ∷ 3 ∷ []

abbrev world : World
world = record {
  files = λ p. if text_eq p (codes "stage2") then some loader else none;
  stdout = [];
  stderr = [];
}

no_bootloader : take_bootloader (codes "A=1" ∷ []) ≡ ok (record { bootloader = none; rest = lines })
unfolding text_eq
no_bootloader = refl

with_bootloader :
    take_bootloader (codes "--bootloader" ∷ codes "stage2" ∷ lines)
    ≡ ok (record { bootloader = some (codes "stage2"); rest = lines })
unfolding text_eq
with_bootloader = refl

lines_taken : take_lines lines world ≡ done lines world
unfolding text_eq
lines_taken = refl

loader_there : world.files (codes "stage2") ≡ some loader
unfolding text_eq
loader_there = refl

-- Lines with each kind of newline, and a character of three bytes.
lines_of_file :
    text_lines (codes "A=1\r\nB=" ++ (0xe2 ∷ 0x82 ∷ 0xac ∷ 13 ∷ 10 ∷ 10 ∷ []) ++ codes "C")
    ≡ ok (codes "A=1" ∷ (codes "B=" ++ 8364 ∷ []) ∷ [] ∷ codes "C" ∷ [])
unfolding text_lines utf8_decode universal_newlines split
lines_of_file = refl

main-read_config_example :
    (b : Bytes) × (w' : World) × (main sha256
        (codes "mkconfigblob.py" ∷ codes "out" ∷ codes "A=1" ∷ [])
        world
      ≡ done tt w')
    × (w'.files ≡ (holding (codes "out") b world).files)
    × (read_config sha256 b ≡ some payload)
main-read_config_example =
    main-read_config sha256 digest lines payload lines-payload (omega arith)
      (codes "mkconfigblob.py") (codes "out") (codes "A=1") [] world lines no_bootloader lines_taken

abbrev saved : World
saved = record world { files = λ p. if text_eq p (codes "lines") then some payload else none }

saved-payload : saved.files (codes "lines") ≡ some payload
unfolding text_eq
saved-payload = refl

lines-IsPoint : All IsPoint (config_text lines)
unfolding rstrip_newlines join
lines-IsPoint = omega arith

lines-Lacks : Lacks 13 (config_text lines)
unfolding rstrip_newlines join
lines-Lacks = omega arith

main-main_from_example :
    (b : Bytes) × (w' : World) × (v' : World) × (main sha256
        (codes "mkconfigblob.py" ∷ codes "out" ∷ codes "A=1" ∷ [])
        world
      ≡ done tt w')
    × (w'.files ≡ (holding (codes "out") b world).files)
    × (read_config sha256 b ≡ some payload)
    × (main sha256
          (codes "mkconfigblob.py" ∷ codes "copy" ∷ codes "--from" ∷ codes "lines" ∷ [])
          saved
        ≡ done tt v')
    × (v'.files ≡ (holding (codes "copy") b saved).files)
main-main_from_example =
    main-main_from sha256 digest lines payload lines-payload (omega arith) lines-IsPoint lines-Lacks
      (codes "mkconfigblob.py") (codes "out") (codes "A=1") [] world lines no_bootloader lines_taken
      (codes "copy") (codes "lines") saved saved-payload

main-read_bootloader_example :
    (b : Bytes) × (w' : World) × (main sha256
        (codes "mkconfigblob.py" ∷ codes "out" ∷ codes "--bootloader" ∷ codes "stage2" ∷ lines)
        world
      ≡ done tt w')
    × (w'.files ≡ (holding (codes "out") b world).files)
    × (read_bootloader sha256 b ≡ some loader)
    × (64 + length payload ≤ bl_hdr_off → read_config sha256 b ≡ some payload)
main-read_bootloader_example =
    main-read_bootloader sha256 digest lines payload lines-payload (omega arith) loader
      (omega arith) (codes "mkconfigblob.py") (codes "out") (codes "--bootloader")
      (codes "stage2" ∷ lines) world lines b's' (codes "tage2") with_bootloader lines_taken
      loader_there
