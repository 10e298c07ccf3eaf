-- ===== src/Dtbo/Layout.antt =====
-- The container read back by its own table, and what `main` does on each branch.
use poly_firmware_build.Base.{
  inl, inr, ℕ, ◌+◌, ◌^◌, ◌≤◌, ◌<◌, ◌≡◌, refl, sym, ◌∙◌, ap, true, ◌&&◌, Option, none, some, List,
  [], ◌∷◌, ◌++◌, ◌==◌, ==_refl, arith, if◌then◌else◌, Bytes, Text, text_eq, length, length-append,
  take, drop, take_all, take-length_append, drop-length_append, append_assoc, lt→ltb_false,
  Bool-cases,
}
use poly_firmware_build.Host.{
  World, Error, Result, lift, write_file, print, ◌>>=◌, ◌>>◌, done, raised, ok, raise, holding,
  struct_error,
}
use poly_firmware_build.Pack.{big, pack, unpack}
use poly_firmware_build.Pack.RoundTrip.{packed, pack-Fit, length-packed, unpack-packed}
use poly_firmware_build.Dtbo.{
  magic, dt_offset, table_fields, entry_fields, build, Namespace, or_text, out_path, fdt_magic,
  summary, write_image, main,
}

abbrev eight_words : List ℕ
eight_words = 4 ∷ 4 ∷ 4 ∷ 4 ∷ 4 ∷ 4 ∷ 4 ∷ 4 ∷ []

-- The device tree that the first entry of a DTBO table names, as a reader of the format finds it:
-- the entry is where the header says, and the tree where the entry says.
unfoldable pub first_dtb : Bytes → Option Bytes
first_dtb img = elim (unpack big eight_words (take 32 img)) [
  | some (m ∷ total ∷ hdr ∷ size ∷ count ∷ entries ∷ page ∷ version ∷ []) ↦
      if m == magic && total == length img
      then elim (unpack big eight_words (take size (drop entries img))) [
        | some (dt_size ∷ offset ∷ rest) ↦ some (take dt_size (drop offset img))
        | _ ↦ none
      ]
      else none
  | _ ↦ none
]

module _ (dtb : Bytes) (fits : dt_offset + length dtb < 2 ^ 32) where
  abbrev hdr : Bytes
  hdr = packed big (table_fields (dt_offset + length dtb))

  abbrev entry : Bytes
  entry = packed big (entry_fields (length dtb))

  abbrev pub dtbo_image : Bytes
  dtbo_image = hdr ++ (entry ++ dtb)

  pub build-dtbo_image : build dtb ≡ ok dtbo_image
  unfolding build
  build-dtbo_image = rw (
    pack-Fit big (table_fields (dt_offset + length dtb)) (omega arith),
    pack-Fit big (entry_fields (length dtb)) (omega arith),
  )

  length-dtbo_image : length dtbo_image ≡ dt_offset + length dtb
  length-dtbo_image = omega (
    arith,
    length-append hdr (entry ++ dtb),
    length-append entry dtb,
    length-packed big (table_fields (dt_offset + length dtb)),
    length-packed big (entry_fields (length dtb)),
  )

  pub drop-dtbo_image : drop dt_offset dtbo_image ≡ dtb
  drop-dtbo_image =
      let both : length (hdr ++ entry) ≡ dt_offset = omega (
        arith,
        length-append hdr entry,
        length-packed big (table_fields (dt_offset + length dtb)),
        length-packed big (entry_fields (length dtb)),
      ) in
      ap (drop dt_offset) (sym (append_assoc hdr entry dtb))
      ∙ drop-length_append dt_offset (hdr ++ entry) dtb both

  pub first_dtb-dtbo_image : first_dtb dtbo_image ≡ some dtb
  unfolding first_dtb
  first_dtb-dtbo_image =
      let table = table_fields (dt_offset + length dtb) in
      rw
        (
          take-length_append 32 hdr (entry ++ dtb) (length-packed big table),
          unpack-packed big table (omega arith),
          first_dtb,
          length-dtbo_image,
          ==_refl,
          drop-length_append 32 hdr (entry ++ dtb) (length-packed big table),
          take-length_append 32 entry dtb (length-packed big (entry_fields (length dtb))),
          unpack-packed big (entry_fields (length dtb)) (omega arith),
        )
        (ap some (ap (take (length dtb)) drop-dtbo_image ∙ take_all (length dtb) dtb (omega arith)))

-- A tree that makes the container 4 GiB or more is refused.
build_too_big : (dtb : Bytes) → 2 ^ 32 ≤ dt_offset + length dtb → build dtb ≡ raise struct_error
unfolding build pack
build_too_big dtb h = rw (lt→ltb_false (256 ^ 4) (dt_offset + length dtb) h)

-- `main` with an output path, an input that begins with the FDT magic and is small enough: it
-- writes the one output file, and the first entry of the written table is the input.
pub main-first_dtb :
    (a : Namespace) (out : Text) (dtb : Bytes) (w : World)
    → or_text (out_path a) none ≡ some out
    → w.files a.dtb ≡ some dtb
    → text_eq (take 4 dtb) fdt_magic ≡ true
    → dt_offset + length dtb < 2 ^ 32
    → (img : Bytes) × (w' : World) × (main a w ≡ done tt w')
      × (w'.files ≡ (holding out img w).files)
      × (first_dtb img ≡ some dtb)
unfolding main
main-first_dtb a out dtb w path there fdt fits =
    let img = dtbo_image dtb fits in
    (
      img,
      record (holding out img w) { stdout = w.stdout ++ summary out dtb img ∷ [] },
      rw (path, there, fdt, build-dtbo_image dtb fits),
      refl,
      first_dtb-dtbo_image dtb fits,
    )

-- Where `main` ends in an exception, of whatever kind, no file has changed.
pub main_atomic :
    (a : Namespace) (w : World) {e : Error} {w' : World}
    → main a w ≡ raised e w'
    → w'.files ≡ w.files
unfolding main
main_atomic a w {e} {w'} h = step (or_text (out_path a) none) h
  where
    built :
        (out : Text) (dtb : Bytes) (r : Result Bytes)
        → (lift r >>= λ img. write_file out img >> print (summary out dtb img)) w ≡ raised e w'
        → w'.files ≡ w.files
    built out dtb (ok img) h = cc
    built out dtb (raise x) h = ground arith

    found :
        (out : Text) (o : Option Bytes)
        → w.files a.dtb ≡ o
        → write_image a (some out) w ≡ raised e w'
        → w'.files ≡ w.files
    found out none missing h = ground (arith, missing)
    found out (some dtb) there h = elim (Bool-cases (text_eq (take 4 dtb) fdt_magic)) [
      | inl fdt ↦ ground (arith, there, fdt, built out dtb (build dtb))
      | inr not_fdt ↦ ground (arith, there, not_fdt)
    ]

    step : (o : Option Text) → write_image a o w ≡ raised e w' → w'.files ≡ w.files
    step none h = ground arith
    step (some out) h = found out (w.files a.dtb) refl h
