-- ===== src/Sparse/SelfCheck.antt =====
-- `verify` on what `convert` wrote, and on such an image cut off inside its last chunk.
use poly_firmware_build.Base.{
  ℕ, suc, ◌+◌, ◌-◌, ◌*◌, ◌≤◌, ◌≡◌, refl, sym, ◌∙◌, ap, ap₂, true, false, Bool, List, [], ◌∷◌, ◌++◌,
  arith, Bytes, append-nil, All, length, drop, length-append, length-slice, append_assoc, drop-drop,
  drop-length_append, take-length_append,
}
use poly_firmware_build.Host.{ok}
use poly_firmware_build.Pack.{little}
use poly_firmware_build.Pack.RoundTrip.{packed, length-packed, unpack-packed}
use poly_firmware_build.Sparse.Format.{blk_sz, chunk_hdr_sz}
use poly_firmware_build.Sparse.Convert.{Chunk, chunk_of, payload_bytes}
use poly_firmware_build.Sparse.Covers.{Covers, finish, run}
use poly_firmware_build.Sparse.Image.{ChunkFits, chunks_bytes, fields_of}
use poly_firmware_build.Sparse.Verify.{Cursor, check_chunk, next_chunk, walk_chunks}

-- The chunks with the payload of the last one replaced by other bytes.
abbrev pub cut_bytes : List Chunk → Bytes → Bytes
cut_bytes [] stub = []
cut_bytes (c ∷ []) stub = packed little (fields_of c) ++ stub
cut_bytes (c ∷ d ∷ cs) stub =
    packed little (fields_of c) ++ (payload_bytes c.payload ++ cut_bytes (d ∷ cs) stub)

abbrev pub last_payload : List Chunk → Bytes
last_payload [] = []
last_payload (c ∷ []) = payload_bytes c.payload
last_payload (c ∷ d ∷ cs) = last_payload (d ∷ cs)

pub chunks_bytes-cut_bytes : (cs : List Chunk) → chunks_bytes cs ≡ cut_bytes cs (last_payload cs)
chunks_bytes-cut_bytes [] = refl
chunks_bytes-cut_bytes (c ∷ []) =
    ap (λ b. packed little (fields_of c) ++ b) (append-nil (payload_bytes c.payload))
chunks_bytes-cut_bytes (c ∷ d ∷ cs) =
    ap (λ b. packed little (fields_of c) ++ (payload_bytes c.payload ++ b))
      (chunks_bytes-cut_bytes (d ∷ cs))

-- The cursor behind a chunk.
abbrev behind : Chunk → Cursor → Cursor
behind c cur = record {
  pos = cur.pos + chunk_hdr_sz + length (payload_bytes c.payload);
  covered = cur.covered + c.cblks;
  seen = cur.seen + 1;
}

check_chunk_of :
    (raw : Bytes) (zeros : Bool) (i j : ℕ) (cur : Cursor)
    → i ≤ j
    → j * blk_sz ≤ length raw
    → let c = chunk_of raw zeros i j in
      check_chunk
        (record cur { pos = cur.pos + chunk_hdr_sz })
        c.ctype
        c.cblks
        (chunk_hdr_sz + length (payload_bytes c.payload))
      ≡ ok (behind c cur)
unfolding check_chunk
check_chunk_of raw true i j cur le within = ground arith
check_chunk_of raw false i j cur le within =
    ground (arith, length-slice (i * blk_sz) (j * blk_sz) raw within)

next_chunk_of :
    (raw : Bytes) (zeros : Bool) (i j : ℕ) (cur : Cursor) (simg rest : Bytes)
    → i ≤ j
    → j * blk_sz ≤ length raw
    → ChunkFits (chunk_of raw zeros i j)
    → drop cur.pos simg ≡ packed little (fields_of (chunk_of raw zeros i j)) ++ rest
    → next_chunk simg cur ≡ ok (behind (chunk_of raw zeros i j) cur)
unfolding next_chunk
next_chunk_of raw zeros i j cur simg rest le within fits here =
    let c = chunk_of raw zeros i j in
    let hdr = take-length_append chunk_hdr_sz _ rest (length-packed little (fields_of c)) in
    rw
      (
        here,
        hdr,
        length-packed little (fields_of c),
        unpack-packed little (fields_of c) fits,
        next_chunk,
      )
      (check_chunk_of raw zeros i j cur le within)

Covers-nil :
    (raw : Bytes) (total : ℕ) {i : ℕ} {cs : List Chunk}
    → Covers raw total i cs
    → length cs ≡ 0
    → i ≡ total
Covers-nil raw total (finish e) h = e
Covers-nil raw total (run j zeros above below u stops rest) h = absurd (omega arith)

cblks-chunk_of : (raw : Bytes) (zeros : Bool) (i j : ℕ) → (chunk_of raw zeros i j).cblks ≡ j - i
cblks-chunk_of raw true i j = refl
cblks-chunk_of raw false i j = refl

-- A cursor from its numbers.
abbrev pub cursor : ℕ → ℕ → ℕ → Cursor
cursor p c s = record { pos = p; covered = c; seen = s }

walk_chunks-suc :
    (simg : Bytes) (left : ℕ) (cur next : Cursor)
    → next_chunk simg cur ≡ ok next
    → walk_chunks simg (suc left) cur ≡ walk_chunks simg left next
unfolding walk_chunks
walk_chunks-suc simg left cur next h = rw h

-- The walk over the chunks of an image reaches the end with all blocks covered, whatever stands in
-- place of the last payload.
pub walk_chunks-Covers :
    (raw : Bytes) (total i : ℕ) {cs : List Chunk} (simg stub : Bytes) (cur : Cursor)
    → Covers raw total i cs
    → total * blk_sz ≤ length raw
    → All ChunkFits cs
    → drop cur.pos simg ≡ cut_bytes cs stub
    → (p : ℕ) × (walk_chunks simg (length cs) cur
        ≡ ok (cursor p (cur.covered + (total - i)) (cur.seen + length cs)))
walk_chunks-Covers raw total i simg stub cur (finish e) within fits here =
    (cur.pos, unfold walk_chunks in ground arith)
walk_chunks-Covers raw total i simg stub cur (run {cs = []} j zeros above below u stops rest) within
      (fit, fits) here =
    let c = chunk_of raw zeros i j in
    let last = Covers-nil raw total rest refl in
    let blks = cblks-chunk_of raw zeros i j in
    (
      (behind c cur).pos,
      walk_chunks-suc simg 0 cur (behind c cur)
            (next_chunk_of raw zeros i j cur simg stub (omega arith) (omega arith) fit here)
          ∙ (unfold walk_chunks in
              ap (λ k. ok (cursor (behind c cur).pos k (cur.seen + 1))) (omega arith)),
    )
walk_chunks-Covers raw total i simg stub cur (run {cs = d ∷ cs} j zeros above below u stops rest)
      within (fit, fits) here =
    let c = chunk_of raw zeros i j in
    let p = payload_bytes c.payload in
    let hdr = packed little (fields_of c) in
    let later = cut_bytes (d ∷ cs) stub in
    let blks = cblks-chunk_of raw zeros i j in
    let size : length (hdr ++ p) ≡ chunk_hdr_sz + length p =
      omega (arith, length-append hdr p, length-packed little (fields_of c)) in
    let there : drop (behind c cur).pos simg ≡ later =
      ap (λ k. drop k simg) (omega arith)
      ∙ sym (drop-drop cur.pos (chunk_hdr_sz + length p) simg)
      ∙ ap (drop (chunk_hdr_sz + length p)) (here ∙ sym (append_assoc hdr p later))
      ∙ drop-length_append (chunk_hdr_sz + length p) (hdr ++ p) later size in
    let (q, walks) =
      walk_chunks-Covers raw total j simg stub (behind c cur) rest within fits there in
    (
      q,
      walk_chunks-suc simg (suc (length cs)) cur (behind c cur)
            (next_chunk_of raw zeros i j cur simg (p ++ later) (omega arith) (omega arith) fit here)
          ∙ walks
          ∙ ap₂ (λ k s. ok (cursor q k s)) (omega arith) (omega arith),
    )
