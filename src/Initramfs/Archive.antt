-- ===== src/Initramfs/Archive.antt =====
-- The bytes that the operations of `Cpio` append, and the archive read back.
use poly_firmware_build.Base.{
  ℕ, ◌+◌, ◌-◌, ◌%◌, ◌≡◌, refl, sym, ◌∙◌, ap, List, [], ◌∷◌, ◌++◌, arith, Bytes, Text, length,
  replicate, length-replicate, length-append, append_assoc,
}
use poly_firmware_build.Initramfs.{Cpio, cpio_magic, hex_fields, pad4, entry}
use poly_firmware_build.Initramfs.Hex.{length-hex_fields}
use poly_firmware_build.Initramfs.Newc.{Entry, FieldsFit, fields_of, onto, zeros4}

-- The bytes of entries in front of `rest`.
abbrev pub all_onto : List Entry → Bytes → Bytes
all_onto [] rest = rest
all_onto (e ∷ es) rest = onto e (all_onto es rest)

all_onto-append :
    (es fs : List Entry) (rest : Bytes) → all_onto (es ++ fs) rest ≡ all_onto es (all_onto fs rest)
all_onto-append [] fs rest = refl
all_onto-append (e ∷ es) fs rest = ap (onto e) (all_onto-append es fs rest)

-- The archive under construction holds the given entries and is padded.
abbrev pub Holds : Cpio → List Entry → Type 0
Holds c es = ((rest : Bytes) → c.blob ++ rest ≡ all_onto es rest) × (length c.blob % 4 ≡ 0)

-- The entry that `entry` writes with these arguments.
abbrev pub written : ℕ → Text → ℕ → ℕ → ℕ → ℕ → Bytes → Entry
written ino name mode rdev_maj rdev_min nlink content = record {
  ino = ino;
  mode = mode;
  nlink = nlink;
  rdev_maj = rdev_maj;
  rdev_min = rdev_min;
  name = name;
  content = content;
}

module _ (name : Text) (mode maj min nlink : ℕ) (content : Bytes) (c : Cpio) where
  abbrev pub added : Entry
  added = written (c.ino + 1) name mode maj min nlink content

  abbrev head : Bytes
  head = cpio_magic ++ hex_fields (fields_of added)

  abbrev named : Bytes
  named = head ++ (name ++ 0 ∷ [])

  module _ (fit : FieldsFit added) (even : length c.blob % 4 ≡ 0) where
    length-named : length named ≡ 111 + length name
    length-named = omega (
      arith,
      length-append head (name ++ 0 ∷ []),
      length-append name (0 ∷ []),
      length-append cpio_magic (hex_fields (fields_of added)),
      length-hex_fields (fields_of added) fit,
    )

    first_gap : (4 - length (c.blob ++ named) % 4) % 4 ≡ (4 - (111 + length name) % 4) % 4
    first_gap = omega (arith, length-append c.blob named, length-named)

    second_gap :
        (z : Bytes)
        → z ≡ zeros4 (111 + length name)
        → (4 - length (((c.blob ++ named) ++ z) ++ content) % 4) % 4 ≡ (4 - length content % 4) % 4
    second_gap z h = omega (
      arith,
      length-append ((c.blob ++ named) ++ z) content,
      length-append (c.blob ++ named) z,
      length-append c.blob named,
      length-named,
      ap length h,
      length-replicate {A = ℕ} ((4 - (111 + length name) % 4) % 4) 0,
    )

flatten :
    (b m f n z d y rest : Bytes)
    → ((((b ++ ((m ++ f) ++ (n ++ 0 ∷ []))) ++ z) ++ d) ++ y) ++ rest
      ≡ b ++ (m ++ (f ++ (n ++ ((0 ∷ z) ++ (d ++ (y ++ rest))))))
flatten b m f n z d y rest = simp append_assoc refl

length-padded : (b : Bytes) → length (b ++ replicate ((4 - length b % 4) % 4) 0) % 4 ≡ 0
length-padded b = omega (
  arith,
  length-append b (replicate ((4 - length b % 4) % 4) 0),
  length-replicate {A = ℕ} ((4 - length b % 4) % 4) 0,
)

module _ (name : Text) (mode maj min nlink : ℕ) (content : Bytes) (c : Cpio) (es : List Entry) where
  pub entry-Holds :
      FieldsFit (added name mode maj min nlink content c)
      → Holds c es
      → Holds
          (entry name mode (length content) maj min nlink content c)
          (es ++ added name mode maj min nlink content c ∷ [])
  unfolding entry pad4
  entry-Holds fit (same, even) =
      let e = added name mode maj min nlink content c in
      let whole = named name mode maj min nlink content c in
      let z = replicate ((4 - length (c.blob ++ whole) % 4) % 4) 0 in
      let gap : z ≡ zeros4 (111 + length name) =
        ap (λ n. replicate n 0) (first_gap name mode maj min nlink content c fit even) in
      let y = replicate ((4 - length (((c.blob ++ whole) ++ z) ++ content) % 4) % 4) 0 in
      let gap' : y ≡ zeros4 (length content) =
        ap (λ n. replicate n 0) (second_gap name mode maj min nlink content c fit even z gap) in
      (
        λ rest.
            flatten c.blob cpio_magic (hex_fields (fields_of e)) name z content y rest
            ∙ ap
                (λ z.
                  c.blob
                  ++ (cpio_magic
                      ++ (hex_fields (fields_of e)
                          ++ (name ++ ((0 ∷ z) ++ (content ++ (y ++ rest)))))))
                gap
            ∙ ap
                (λ y.
                  c.blob
                  ++ (cpio_magic
                      ++ (hex_fields (fields_of e)
                          ++ (name
                              ++ ((0 ∷ zeros4 (111 + length name)) ++ (content ++ (y ++ rest)))))))
                gap'
            ∙ same (onto e rest)
            ∙ sym (all_onto-append es (e ∷ []) rest),
        length-padded (((c.blob ++ whole) ++ z) ++ content),
      )
