-- ===== src/Initramfs/Newc.antt =====
-- The `newc` archive format as its readers have it: a header of thirteen numbers of eight
-- hexadecimal digits, the name with its zero byte, the content, each padded to four bytes.
use poly_firmware_build.Base.{
  ℕ, zero, suc, ◌+◌, ◌-◌, ◌*◌, ◌/◌, ◌%◌, ◌^◌, ◌<◌, ◌≡◌, refl, ◌∙◌, ap, not, Option, none, some,
  List, [], ◌∷◌, ◌++◌, arith, if◌then◌else◌, Bytes, Text, codes, length, take, drop, replicate,
  text_eq, text_eq_refl, All, drop_more, take-length_append, drop-length_append, length-replicate,
}
use poly_firmware_build.Initramfs.{cpio_magic, hex_fields, header_fields}
use poly_firmware_build.Initramfs.Hex.{read_fields, length-hex_fields, read_fields-hex_fields}

pub record Entry : Type 0 where
  pub ino : ℕ
  pub mode : ℕ
  pub nlink : ℕ
  pub rdev_maj : ℕ
  pub rdev_min : ℕ
  pub name : Text
  pub content : Bytes

abbrev nth : List ℕ → ℕ → ℕ
nth [] i = 0
nth (n ∷ ns) zero = n
nth (n ∷ ns) (suc i) = nth ns i

abbrev up4 : ℕ → ℕ
up4 n = (n + 3) / 4 * 4

-- The first entry, and what follows it.
unfoldable pub read_entry : Bytes → Option (Entry × Bytes)
read_entry b =
    let fields = read_fields 13 (drop 6 b) in
    let start = up4 (110 + nth fields 11) in
    if not (text_eq (take 6 b) cpio_magic)
    then none
    else some (
      record {
        ino = nth fields 0;
        mode = nth fields 1;
        nlink = nth fields 4;
        rdev_maj = nth fields 9;
        rdev_min = nth fields 10;
        name = take (nth fields 11 - 1) (drop 110 b);
        content = take (nth fields 6) (drop start b);
      },
      drop (start + up4 (nth fields 6)) b,
    )

-- The entries up to the one that ends an archive, at most `fuel` with it.
unfoldable pub read_archive : ℕ → Bytes → Option (List Entry)
read_archive zero b = none
read_archive (suc fuel) b = elim (read_entry b) [
  | none ↦ none
  | some (e, rest) ↦
      if text_eq e.name (codes "TRAILER!!!")
      then some []
      else elim (read_archive fuel rest) [ none ↦ none | some es ↦ some (e ∷ es) ]
]

abbrev pub zeros4 : ℕ → Bytes
zeros4 n = replicate ((4 - n % 4) % 4) 0

abbrev pub fields_of : Entry → List ℕ
fields_of e = header_fields e.ino e.name e.mode (length e.content) e.rdev_maj e.rdev_min e.nlink

abbrev pub FieldsFit : Entry → Type 0
FieldsFit e = All (λ n. n < 2 ^ 32) (fields_of e)

-- An entry's bytes in front of `rest`.
abbrev pub onto : Entry → Bytes → Bytes
onto e rest =
    cpio_magic
    ++ (hex_fields (fields_of e)
        ++ (e.name
            ++ ((0 ∷ zeros4 (111 + length e.name))
                ++ (e.content ++ (zeros4 (length e.content) ++ rest)))))

module _ (e : Entry) (rest : Bytes) (fit : FieldsFit e) where
  abbrev tail_of : Bytes
  tail_of = e.content ++ (zeros4 (length e.content) ++ rest)

  abbrev gap : Bytes
  gap = 0 ∷ zeros4 (111 + length e.name)

  at_fields : drop 6 (onto e rest) ≡ hex_fields (fields_of e) ++ (e.name ++ (gap ++ tail_of))
  at_fields = drop-length_append 6 cpio_magic _ refl

  at_name : drop 110 (onto e rest) ≡ e.name ++ (gap ++ tail_of)
  at_name =
      drop_more 6 104 (onto e rest) (hex_fields (fields_of e)) (e.name ++ (gap ++ tail_of))
        at_fields (length-hex_fields (fields_of e) fit)

  at_gap : drop (110 + length e.name) (onto e rest) ≡ gap ++ tail_of
  at_gap = drop_more 110 (length e.name) (onto e rest) e.name (gap ++ tail_of) at_name refl

  at_content : drop (up4 (110 + (length e.name + 1))) (onto e rest) ≡ tail_of
  at_content =
      ap (λ n. drop n (onto e rest))
        (omega (arith, length-replicate {A = ℕ} ((4 - (111 + length e.name) % 4) % 4) 0))
      ∙ drop_more (110 + length e.name) (length gap) (onto e rest) gap tail_of at_gap refl

  at_rest : drop (up4 (110 + (length e.name + 1)) + up4 (length e.content)) (onto e rest) ≡ rest
  at_rest =
      let start = up4 (110 + (length e.name + 1)) in
      let end = zeros4 (length e.content) in
      ap (λ n. drop n (onto e rest))
        (omega (arith, length-replicate {A = ℕ} ((4 - length e.content % 4) % 4) 0))
      ∙ drop_more (start + length e.content) (length end) (onto e rest) end rest
          (drop_more start (length e.content) (onto e rest) e.content (end ++ rest) at_content refl)
          refl

  pub read_entry-onto : read_entry (onto e rest) ≡ some (e, rest)
  unfolding read_entry
  read_entry-onto = rw (
    take-length_append 6 cpio_magic _ refl,
    at_fields,
    read_fields-hex_fields (fields_of e) (e.name ++ (gap ++ tail_of)) fit,
    text_eq_refl cpio_magic,
    at_name,
    at_content,
    at_rest,
    take-length_append (length e.content) e.content (zeros4 (length e.content) ++ rest) refl,
    take-length_append (length e.name + 1 - 1) e.name (gap ++ tail_of) (omega arith),
  )
