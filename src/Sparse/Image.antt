-- ===== src/Sparse/Image.antt =====
-- The bytes of a sparse image, and the condition under which `convert` can pack its headers.
use poly_firmware_build.Base.{
  sym, ℕ, ◌^◌, ◌<◌, ◌≡◌, ◌∙◌, ap, some, List, [], ◌∷◌, ◌++◌, arith, Bytes, Text, All, length, take,
  drop, append_assoc, append-nil, take-length_append, drop-length_append,
}
use poly_firmware_build.Host.{ok, World, done, holding, append_file-holding}
use poly_firmware_build.Pack.{little, unpack, values}
use poly_firmware_build.Pack.RoundTrip.{packed, Fit, pack-Fit, length-packed, unpack-packed}
use poly_firmware_build.Sparse.Format.{
  sparse_fields, chunk_fields, file_header, chunk_header, blk_sz, chunk_hdr_sz, file_hdr_sz,
  chunk_widths, file_widths,
}
use poly_firmware_build.Sparse.Convert.{Chunk, payload_bytes, write_chunks}

abbrev pub fields_of : Chunk → List (ℕ × ℕ)
fields_of c = chunk_fields c.ctype c.cblks (length (payload_bytes c.payload))

abbrev pub chunks_bytes : List Chunk → Bytes
chunks_bytes [] = []
chunks_bytes (c ∷ cs) = packed little (fields_of c) ++ (payload_bytes c.payload ++ chunks_bytes cs)

abbrev pub ChunkFits : Chunk → Type 0
ChunkFits c = Fit (fields_of c)

chunk_header-packed :
    (c : Chunk)
    → ChunkFits c
    → chunk_header c.ctype c.cblks (length (payload_bytes c.payload))
      ≡ ok (packed little (fields_of c))
unfolding chunk_header
chunk_header-packed c h = rw (pack-Fit little (fields_of c) h)

pub write_chunks-bytes :
    (path : Text) (cs : List Chunk) (a : Bytes) (w : World)
    → All ChunkFits cs
    → write_chunks path cs (holding path a w) ≡ done tt (holding path (a ++ chunks_bytes cs) w)
unfolding write_chunks
write_chunks-bytes path [] a w h = ap (λ b. done tt (holding path b w)) (sym (append-nil a))
write_chunks-bytes path (c ∷ cs) a w (h, hs) =
    let hdr = packed little (fields_of c) in
    let p = payload_bytes c.payload in
    rw
      (
        chunk_header-packed c h,
        append_file-holding path a hdr w,
        append_file-holding path (a ++ hdr) p w,
        write_chunks-bytes path cs ((a ++ hdr) ++ p) w hs,
      )
      (ap (λ b. done tt (holding path b w))
        (append_assoc (a ++ hdr) p (chunks_bytes cs) ∙ append_assoc a hdr (p ++ chunks_bytes cs)))

-- A header in front of other bytes is cut off and unpacked.
pub unpack-chunk :
    (c : Chunk) (rest : Bytes)
    → ChunkFits c
    → unpack little chunk_widths (take chunk_hdr_sz (packed little (fields_of c) ++ rest))
      ≡ some (values (fields_of c))
unpack-chunk c rest h =
    ap (unpack little chunk_widths)
      (take-length_append chunk_hdr_sz _ rest (length-packed little (fields_of c)))
    ∙ unpack-packed little (fields_of c) h

pub drop-chunk :
    (c : Chunk) (rest : Bytes) → drop chunk_hdr_sz (packed little (fields_of c) ++ rest) ≡ rest
drop-chunk c rest = drop-length_append chunk_hdr_sz _ rest (length-packed little (fields_of c))

-- The whole image, and the condition on its file header.
abbrev pub image_of : ℕ → List Chunk → Bytes
image_of total cs = packed little (sparse_fields blk_sz total (length cs)) ++ chunks_bytes cs

abbrev pub HeaderFits : ℕ → List Chunk → Type 0
HeaderFits total cs = (total < 2 ^ 32) × (length cs < 2 ^ 32)

pub sparse_fields-Fit :
    (total : ℕ) (cs : List Chunk)
    → HeaderFits total cs
    → Fit (sparse_fields blk_sz total (length cs))
sparse_fields-Fit total cs (h, k) = omega arith

pub file_header-packed :
    (total : ℕ) (cs : List Chunk)
    → HeaderFits total cs
    → file_header total (length cs) ≡ ok (packed little (sparse_fields blk_sz total (length cs)))
unfolding file_header
file_header-packed total cs h = rw (pack-Fit little _ (sparse_fields-Fit total cs h))

module _ (total : ℕ) (cs : List Chunk) where
  abbrev file_fields : List (ℕ × ℕ)
  file_fields = sparse_fields blk_sz total (length cs)

  pub take-image : take file_hdr_sz (image_of total cs) ≡ packed little file_fields
  take-image = take-length_append file_hdr_sz _ (chunks_bytes cs) (length-packed little file_fields)

  pub drop-image : drop file_hdr_sz (image_of total cs) ≡ chunks_bytes cs
  drop-image = drop-length_append file_hdr_sz _ (chunks_bytes cs) (length-packed little file_fields)

  pub unpack-image :
      HeaderFits total cs
      → unpack little file_widths (packed little file_fields) ≡ some (values file_fields)
  unpack-image h = unpack-packed little file_fields (sparse_fields-Fit total cs h)
