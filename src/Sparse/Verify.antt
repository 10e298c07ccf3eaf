-- ===== src/Sparse/Verify.antt =====
-- `verify` and `main`. The file is read at a position, which a seek may put behind its end.
use poly_firmware_build.Base.{
  ℕ, zero, suc, ◌+◌, ◌-◌, ◌*◌, ◌/◌, ◌&&◌, ◌||◌, some, List, [], ◌∷◌, ◌==◌, if◌then◌else◌, Bytes,
  Text, codes, length, take, drop, text_eq,
}
use poly_firmware_build.Host.{
  print_err, Message, message, struct_error, value_error, assertion_error, Result, ok, raise, bind,
  check, M, ◌>>=◌, ◌>>◌, pure, lift, read_file,
}
use poly_firmware_build.Pack.{little, unpack}
use poly_firmware_build.Sparse.Format.{
  sparse_magic, major_version, minor_version, file_hdr_sz, chunk_hdr_sz, blk_sz, chunk_type_raw,
  chunk_type_fill, chunk_type_dont_care, chunk_type_crc32, file_widths, chunk_widths,
}
use poly_firmware_build.Sparse.Convert.{Converted, convert}

-- What the loop over the chunks keeps: the file position, and the two counters.
pub record Cursor : Type 0 where
  pub pos : ℕ
  pub covered : ℕ
  pub seen : ℕ

-- One chunk's tests, on the fields of its header; the position is behind the header. The code's
-- `data_len` is `total_sz - 12`, which may be negative: its equations are written with the 12 on
-- the other side, and a seek by it goes to `pos + total_sz - 12`, which is not negative.
unfoldable pub check_chunk : Cursor → ℕ → ℕ → ℕ → Result Cursor
check_chunk c ctype chunk_blks total_sz =
    let counted = record c { covered = c.covered + chunk_blks; seen = c.seen + 1 } in
    let skipped = record counted { pos = c.pos + total_sz - chunk_hdr_sz } in
    if ctype == chunk_type_raw
    then (bind
        (check (total_sz == chunk_hdr_sz + chunk_blks * blk_sz)
          (assertion_error "RAW chunk {} size" (c.seen ∷ [])))
        λ _. ok skipped)
    else if ctype == chunk_type_dont_care
    then (bind
        (check (total_sz == chunk_hdr_sz)
          (assertion_error "DONT_CARE chunk {} has payload" (c.seen ∷ [])))
        λ _. ok counted)
    else if ctype == chunk_type_fill || ctype == chunk_type_crc32
    then ok skipped
    else raise (value_error "unknown chunk type 0x{:x} at {}" (ctype ∷ c.seen ∷ []))

-- One round of the loop: the header is read and checked.
unfoldable pub next_chunk : Bytes → Cursor → Result Cursor
next_chunk simg c =
    let ch = take chunk_hdr_sz (drop c.pos simg) in
    bind (check (length ch == chunk_hdr_sz) (assertion_error "truncated chunk {}" (c.seen ∷ [])))
      λ _. elim (unpack little chunk_widths ch) [
        | some (ctype ∷ reserved ∷ chunk_blks ∷ total_sz ∷ []) ↦
            check_chunk (record c { pos = c.pos + chunk_hdr_sz }) ctype chunk_blks total_sz
        | _ ↦ raise struct_error
      ]

-- `for c in range(total_chunks)`
unfoldable pub walk_chunks : Bytes → ℕ → Cursor → Result Cursor
walk_chunks simg zero c = ok c
walk_chunks simg (suc left) c = bind (next_chunk simg c) λ c'. walk_chunks simg left c'

pub record Header : Type 0 where
  pub total_blks : ℕ
  pub total_chunks : ℕ

-- The tests on the file header.
unfoldable pub check_header : Bytes → Result Header
check_header simg =
    let hdr = take file_hdr_sz simg in
    bind (check (length hdr == file_hdr_sz) (value_error "sparse shorter than 28-byte header" []))
      λ _. elim (unpack little file_widths hdr) [
        | some (magic ∷ major ∷ minor ∷ hdr_sz ∷ chunk_sz ∷ block ∷ blks ∷ chunks ∷ checksum ∷ []) ↦
            bind (check (magic == sparse_magic) (assertion_error "bad magic 0x{:x}" (magic ∷ [])))
              λ _.
                bind
                  (check (major == major_version && minor == minor_version)
                    (assertion_error "bad version" []))
                  λ _.
                    bind
                      (check (hdr_sz == file_hdr_sz)
                        (assertion_error "file_hdr_sz {}" (hdr_sz ∷ [])))
                      λ _.
                        bind
                          (check (chunk_sz == chunk_hdr_sz)
                            (assertion_error "chunk_hdr_sz {}" (chunk_sz ∷ [])))
                          λ _.
                            bind
                              (check (block == blk_sz) (assertion_error "blk_sz {}" (block ∷ [])))
                              λ _.
                                bind
                                  (check (checksum == 0)
                                    (assertion_error "image_checksum {} != 0" (checksum ∷ [])))
                                  λ _. ok (record { total_blks = blks; total_chunks = chunks })
        | _ ↦ raise struct_error
      ]

-- The tests on the image alone, up to the end of the `with` block.
unfoldable pub verify_image : Bytes → Result Header
verify_image simg = bind (check_header simg) λ h.
    bind (walk_chunks simg h.total_chunks (record { pos = file_hdr_sz; covered = 0; seen = 0 }))
      λ c.
        bind
          (check (c.seen == h.total_chunks)
            (assertion_error "chunk count {} != header {}" (c.seen ∷ h.total_chunks ∷ [])))
          λ _.
            bind
              (check (c.covered == h.total_blks)
                (assertion_error "coverage {} != total_blks {}" (c.covered ∷ h.total_blks ∷ [])))
              λ _. ok h

-- `((raw_sz + BLK_SZ - 1) // BLK_SZ) * BLK_SZ`
abbrev pub round_up : ℕ → ℕ
round_up raw_sz = (raw_sz + blk_sz - 1) / blk_sz * blk_sz

-- The line of a file that passes.
abbrev pub verified_line : Text → Header → ℕ → Message
verified_line simg_in h raw_sz =
    message "[mksparse --verify] OK: {} header valid, {} chunks, {} blocks -> {} B == raw {} B"
      (h.total_chunks ∷ h.total_blks ∷ h.total_blks * blk_sz ∷ raw_sz ∷ []) (simg_in ∷ [])

unfoldable pub verify : Text → Text → M (Unit {0})
verify simg_in raw_in = do
  simg ← read_file simg_in
  h ← lift (verify_image simg)
  raw ← read_file raw_in
  lift (
      check (h.total_blks * blk_sz == round_up (length raw)) (
        assertion_error "re-expanded {} B != raw size {} B (rounded {})"
          (h.total_blks * blk_sz ∷ length raw ∷ round_up (length raw) ∷ [])))
  print_err (verified_line simg_in h (length raw))

abbrev usage : Message
usage =
    message "usage: mksparse.py <raw_in> <simg_out>\n       mksparse.py --verify <simg_in> <raw_in>"
      [] []

-- The line of a conversion; the percentage is given by its two numbers.
abbrev pub converted_line : Text → Text → Converted → ℕ → Message
converted_line raw_in simg_out r simg_len =
    message "[mksparse] {} -> {} : {} blocks ({} B raw) in {} chunks, sparse={} B ({:.1f}%)"
      (r.total_blks ∷ r.raw_len ∷ r.total_chunks ∷ simg_len ∷ 100 * simg_len ∷ r.raw_len ∷ [])
      (raw_in ∷ simg_out ∷ [])

-- The program's name is `argv[0]`.
unfoldable pub main : List Text → M ℕ
main (program ∷ flag ∷ simg_in ∷ raw_in ∷ []) =
    if text_eq flag (codes "--verify")
    then (do verify simg_in raw_in; pure 0)
    else (do print_err usage; pure 2)
main (program ∷ raw_in ∷ simg_out ∷ []) = do
  result ← convert raw_in simg_out
  written ← read_file simg_out
  print_err (converted_line raw_in simg_out result (length written))
  pure 0
main _ = do print_err usage; pure 2
