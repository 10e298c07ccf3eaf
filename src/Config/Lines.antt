-- ===== src/Config/Lines.antt =====
-- The text of a configuration, read as a file of lines, gives the same configuration.
use poly_firmware_build.Base.{
  ◌^◌, ◌<◌, ◌≡◌, refl, ◌∙◌, ap, ap₂, none, some, List, [], ◌∷◌, ◌++◌, arith, All, IsPoint, Lacks,
  Bytes, Text, codes, text_eq, length, map, join, split, split-Lacks, join-split, split-end, utf8,
  utf8_decode-utf8,
}
use poly_firmware_build.Host.{World, ok, done, holding}
use poly_firmware_build.Config.Reader.{read_config}
use poly_firmware_build.Config.Written.{cfg, with_cfg, main-with_cfg, read_config-alone}
use poly_firmware_build.Config.{
  rstrip_newlines, config_text, take_bootloader, universal_newlines, drop_last_empty, text_lines,
  take_lines, main,
}

universal_newlines-Lacks : (t : Text) → Lacks 13 t → universal_newlines t ≡ t
unfolding universal_newlines
universal_newlines-Lacks [] h = refl
universal_newlines-Lacks (c ∷ []) (h, _) = ground arith
universal_newlines-Lacks (c ∷ d ∷ cs) (h, hs) = ground (arith, universal_newlines-Lacks (d ∷ cs) hs)

rstrip_newlines-Lacks : (t : Text) → Lacks 10 t → rstrip_newlines t ≡ t
unfolding rstrip_newlines
rstrip_newlines-Lacks [] h = refl
rstrip_newlines-Lacks (c ∷ []) (h, _) = ground arith
rstrip_newlines-Lacks (c ∷ d ∷ cs) (h, hs) = rw (rstrip_newlines-Lacks (d ∷ cs) hs) refl

stripped-Lacks : (ls : List Text) → All (Lacks 10) ls → map rstrip_newlines ls ≡ ls
stripped-Lacks [] h = refl
stripped-Lacks (l ∷ ls) (h, hs) = ap₂ ◌∷◌ (rstrip_newlines-Lacks l h) (stripped-Lacks ls hs)

drop_last_empty-append : (ls : List Text) → drop_last_empty (ls ++ [] ∷ []) ≡ ls
drop_last_empty-append [] = refl
drop_last_empty-append (l ∷ []) = refl
drop_last_empty-append (l ∷ m ∷ ls) = ap (λ t. l ∷ t) (drop_last_empty-append (m ∷ ls))

-- The lines of a text that ends with a newline.
abbrev lines_of : Text → List Text
lines_of t = split 10 t

config_text-lines_of : (t : Text) → config_text (lines_of t) ≡ t ++ 10 ∷ []
config_text-lines_of t =
    ap (λ s. s ++ 10 ∷ [])
      (ap (join 10) (stripped-Lacks (split 10 t) (split-Lacks 10 t)) ∙ join-split 10 t)

text_lines-utf8 :
    (t : Text) (b : Bytes)
    → All IsPoint (t ++ 10 ∷ [])
    → Lacks 13 (t ++ 10 ∷ [])
    → utf8 (t ++ 10 ∷ []) ≡ some b
    → text_lines b ≡ ok (lines_of t)
unfolding text_lines
text_lines-utf8 t b points plain e =
    rw
      (
        utf8_decode-utf8 (t ++ 10 ∷ []) b points e,
        universal_newlines-Lacks (t ++ 10 ∷ []) plain,
        split-end 10 t,
        drop_last_empty-append (split 10 t),
      )
      refl

module _ (sha256 : Bytes → Bytes) (digest : (b : Bytes) → length (sha256 b) ≡ 32)
    (lines : List Text) (payload : Bytes) (encoded : utf8 (config_text lines) ≡ some payload)
    (small : length payload < 2 ^ 32) (points : All IsPoint (config_text lines))
    (plain : Lacks 13 (config_text lines)) where
  -- The lines that `--from` takes from the payload.
  abbrev again : List Text
  again = lines_of (join 10 (map rstrip_newlines lines))

  again-encoded : utf8 (config_text again) ≡ some payload
  again-encoded = ap utf8 (config_text-lines_of (join 10 (map rstrip_newlines lines))) ∙ encoded

  take_lines-from :
      (path : Text) (v : World)
      → v.files path ≡ some payload
      → take_lines (codes "--from" ∷ path ∷ []) v ≡ done again v
  unfolding text_eq
  take_lines-from path v there =
      rw (there, text_lines-utf8 (join 10 (map rstrip_newlines lines)) payload points plain encoded)
        refl

  no_bootloader-from :
      (path : Text)
      → take_bootloader (codes "--from" ∷ path ∷ [])
        ≡ ok (record { bootloader = none; rest = codes "--from" ∷ path ∷ [] })
  unfolding text_eq
  no_bootloader-from path = refl

  -- A configuration of encodable lines below 4 GiB whose text has no carriage return, with no
  -- bootloader asked for: `main` writes one file, in which the device finds a text, and `main` on a
  -- file of that text, with `--from`, writes the same bytes again.
  pub main-main_from :
      (name out a : Text) (args : List Text) (w : World) (rest : List Text)
      → take_bootloader (a ∷ args) ≡ ok (record { bootloader = none; rest = rest })
      → take_lines rest w ≡ done lines w
      → (copy path : Text) (v : World) → v.files path ≡ some payload
      → (b : Bytes) × (w' : World) × (v' : World) × (main sha256 (name ∷ out ∷ a ∷ args) w
          ≡ done tt w')
        × (w'.files ≡ (holding out b w).files)
        × (read_config sha256 b ≡ some payload)
        × (main sha256 (name ∷ copy ∷ codes "--from" ∷ path ∷ []) v ≡ done tt v')
        × (v'.files ≡ (holding copy b v).files)
  main-main_from name out a args w rest no_bootloader given copy path v there = (
    cfg sha256 digest lines payload encoded small,
    with_cfg sha256 digest lines payload encoded small out w,
    with_cfg sha256 digest again payload again-encoded small copy v,
    main-with_cfg sha256 digest lines payload encoded small name out a args w rest no_bootloader
        given,
    refl,
    read_config-alone sha256 digest lines payload encoded small,
    main-with_cfg sha256 digest again payload again-encoded small name copy (codes "--from")
        (path ∷ []) v (codes "--from" ∷ path ∷ []) (no_bootloader-from path)
        (take_lines-from path v there),
    refl,
  )
