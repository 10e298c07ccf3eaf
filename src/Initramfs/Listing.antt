-- ===== src/Initramfs/Listing.antt =====
-- What the archive of `main` lists.
use mathlib.Core.Path.{subst}
use poly_firmware_build.Base.{
  ℕ, zero, suc, ◌+◌, ◌-◌, ◌%◌, ◌^◌, ◌<◌, ◌≡◌, refl, sym, ◌∙◌, ap, false, some, List, [], ◌∷◌, ◌++◌,
  arith, Bytes, Text, codes, length, replicate, text_eq, text_eq_refl, All,
}
use poly_firmware_build.Initramfs.{
  Cpio, new, pad4, entry, trailer, archive, dirs, dir_names, dir, file, chardev,
}
use poly_firmware_build.Initramfs.Newc.{Entry, FieldsFit, onto, read_archive, read_entry-onto}
use poly_firmware_build.Initramfs.Archive.{all_onto, written, Holds, added, entry-Holds}

abbrev ending : Text
ending = codes "TRAILER!!!"

read_archive-all_onto :
    (es : List Entry) (last : Entry) (rest : Bytes) (fuel : ℕ)
    → All (λ e. FieldsFit e × (text_eq e.name ending ≡ false)) es
    → FieldsFit last
    → last.name ≡ ending
    → length es < fuel
    → read_archive fuel (all_onto es (onto last rest)) ≡ some es
unfolding read_archive
read_archive-all_onto [] last rest zero fit end_fit is_end h = absurd (omega arith)
read_archive-all_onto [] last rest (suc fuel) fit end_fit is_end h =
    rw (read_entry-onto last rest end_fit, read_archive, is_end, text_eq_refl ending)
read_archive-all_onto (e ∷ es) last rest zero fit end_fit is_end h = absurd (omega arith)
read_archive-all_onto (e ∷ es) last rest (suc fuel) ((fits, other), fit) end_fit is_end h = rw (
  read_entry-onto e (all_onto es (onto last rest)) fits,
  read_archive,
  other,
  read_archive-all_onto es last rest fuel fit end_fit is_end (omega arith),
)

-- An archive under construction: its entries, and the last inode number given.
record Held (i : ℕ) (c : Cpio) (es : List Entry) : Type 0 where
  holds : Holds c es
  counted : c.ino ≡ i

empty : Held 720 new []
empty = record { holds = (λ rest. refl, refl); counted = refl }

step :
    {i : ℕ} {c : Cpio} {es : List Entry} (name : Text) (mode maj min nlink : ℕ) (content : Bytes)
    → FieldsFit (written (i + 1) name mode maj min nlink content)
    → Held i c es
    → Held
        (i + 1)
        (entry name mode (length content) maj min nlink content c)
        (es ++ written (i + 1) name mode maj min nlink content ∷ [])
step {i} {c} {es} name mode maj min nlink content fit h =
    let moved : written (i + 1) name mode maj min nlink content
        ≡ added name mode maj min nlink content c =
      ap (λ k. written (k + 1) name mode maj min nlink content) (sym h.counted) in
    record {
      holds =
          subst
            (λ e. Holds (entry name mode (length content) maj min nlink content c) (es ++ e ∷ []))
            (sym moved)
            (entry-Holds name mode maj min nlink content c es (subst FieldsFit moved fit) h.holds);
      counted = (unfold entry pad4 in ap (λ k. k + 1) h.counted);
    }

abbrev dir_entry : ℕ → Text → Entry
dir_entry ino name = written ino name 0o40755 0 0 2 []

abbrev dir_listing : List Entry
dir_listing =
    dir_entry 721 (codes "dev")
    ∷ dir_entry 722 (codes "proc")
    ∷ dir_entry 723 (codes "sys")
    ∷ dir_entry 724 (codes "bin")
    ∷ dir_entry 725 (codes "mnt")
    ∷ dir_entry 726 (codes "lower")
    ∷ dir_entry 727 (codes "rw")
    ∷ dir_entry 728 (codes "newroot")
    ∷ dir_entry 729 (codes "persist")
    ∷ []

-- The entries that the kernel is to find: nine empty directories, two devices, and the two files.
abbrev pub listing : Bytes → Bytes → List Entry
listing init busybox =
    dir_listing
    ++ written 730 (codes "dev/console") 0o20600 5 1 1 []
      ∷ written 731 (codes "dev/null") 0o20666 1 3 1 []
      ∷ written 732 (codes "bin/busybox") 0o100755 0 0 1 busybox
      ∷ written 733 (codes "init") 0o100755 0 0 1 init
      ∷ []

abbrev last_entry : Entry
last_entry = written 734 ending 0 0 0 1 []

add_dir :
    {i : ℕ} {c : Cpio} {es : List Entry} (name : Text)
    → i < 2000
    → length name < 2000
    → Held i c es
    → Held (i + 1) (dir name 0o755 c) (es ++ dir_entry (i + 1) name ∷ [])
add_dir {i} name small short h = step name 0o40755 0 0 2 [] (omega arith) h

abbrev with_dirs : Cpio
with_dirs = dirs dir_names new

dirs-Held : Held 729 with_dirs dir_listing
dirs-Held = add_dir (codes "persist") (omega arith) (omega arith) (
    add_dir (codes "newroot") (omega arith) (omega arith) (
      add_dir (codes "rw") (omega arith) (omega arith) (
        add_dir (codes "lower") (omega arith) (omega arith) (
          add_dir (codes "mnt") (omega arith) (omega arith) (
            add_dir (codes "bin") (omega arith) (omega arith) (
              add_dir (codes "sys") (omega arith) (omega arith) (
                add_dir (codes "proc") (omega arith) (omega arith)
                  (add_dir (codes "dev") (omega arith) (omega arith) empty))))))))

module _ (init busybox : Bytes) (init_fits : length init < 2 ^ 32)
    (busybox_fits : length busybox < 2 ^ 32) where
  abbrev complete : Cpio
  complete = file (codes "init") init 0o755 (
      file (codes "bin/busybox") busybox 0o755
        (chardev (codes "dev/null") 1 3 0o666 (chardev (codes "dev/console") 5 1 0o600 with_dirs)))

  complete-Held : Held 733 complete (listing init busybox)
  complete-Held = step (codes "init") 0o100755 0 0 1 init (omega arith) (
      step (codes "bin/busybox") 0o100755 0 0 1 busybox (omega arith) (
        step (codes "dev/null") 0o20666 1 3 1 [] (omega arith)
          (step (codes "dev/console") 0o20600 5 1 1 [] (omega arith) dirs-Held)))

  each_good : All (λ e. FieldsFit e × (text_eq e.name ending ≡ false)) (listing init busybox)
  unfolding text_eq
  each_good = (
    (omega arith, refl),
    (
      (omega arith, refl),
      (
        (omega arith, refl),
        (
          (omega arith, refl),
          (
            (omega arith, refl),
            (
              (omega arith, refl),
              (
                (omega arith, refl),
                (
                  (omega arith, refl),
                  (
                    (omega arith, refl),
                    (
                      (omega arith, refl),
                      ((omega arith, refl), ((omega arith, refl), ((omega arith, refl), tt))),
                    ),
                  ),
                ),
              ),
            ),
          ),
        ),
      ),
    ),
  )

  pub read_archive-archive : read_archive 14 (archive init busybox) ≡ some (listing init busybox)
  unfolding archive trailer
  read_archive-archive =
      let whole = step ending 0 0 0 1 [] (omega arith) complete-Held in
      let ended = entry ending 0 0 0 0 1 [] complete in
      let pad : Bytes = replicate ((512 - length ended.blob % 512) % 512) 0 in
      ap (read_archive 14) (whole.holds.0 pad)
      ∙ read_archive-all_onto (listing init busybox) last_entry pad 14 each_good (omega arith) refl
          (omega arith)
