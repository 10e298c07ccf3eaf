-- ===== src/Sparse/Convert.antt =====
-- `convert`: runs of zero blocks become DONT_CARE chunks, and runs of other blocks RAW chunks.
use poly_firmware_build.Base.{
  ℕ, zero, suc, ◌+◌, ◌-◌, ◌*◌, ◌/◌, ◌%◌, Bool, true, false, not, ◌&&◌, Option, none, some, List, [],
  ◌∷◌, ◌++◌, ltb, ◌==◌, if◌then◌else◌, Bytes, Text, length, slice, replicate, text_eq,
}
use poly_firmware_build.Host.{M, ◌>>=◌, ◌>>◌, pure, lift, read_file, write_file, append_file}
use poly_firmware_build.Sparse.Format.{
  blk_sz, chunk_type_raw, chunk_type_dont_care, file_header, chunk_header,
}

-- The padding of the tail block with zeros.
unfoldable pub pad_tail : Bytes → Bytes
pad_tail raw =
    if not (length raw % blk_sz == 0)
    then raw ++ replicate (blk_sz - length raw % blk_sz) 0
    else raw

unfoldable pub zero_blk : Bytes
zero_blk = replicate blk_sz 0

-- `raw[i * BLK_SZ:(i + 1) * BLK_SZ] == zero_blk`
unfoldable pub is_zero_blk : Bytes → ℕ → Bool
is_zero_blk raw i = text_eq (slice raw (i * blk_sz) ((i + 1) * blk_sz)) zero_blk

abbrev pub same_flag : Bool → Bool → Bool
same_flag true b = b
same_flag false b = not b

-- The inner loops: `j` moves on while the blocks are zero ones, or while they are not. The fuel is
-- the number of blocks.
unfoldable pub run_end : Bytes → ℕ → Bool → ℕ → ℕ → ℕ
run_end raw total_blks zeros zero j = j
run_end raw total_blks zeros (suc fuel) j =
    let on = run_end raw total_blks zeros fuel (j + 1) in
    if ltb j total_blks && same_flag zeros (is_zero_blk raw j) then on else j

pub record Chunk : Type 0 where
  pub ctype : ℕ
  pub cblks : ℕ
  pub payload : Option Bytes

-- The chunk of the blocks from `i` up to `j`.
abbrev pub chunk_of : Bytes → Bool → ℕ → ℕ → Chunk
chunk_of raw true i j = record { ctype = chunk_type_dont_care; cblks = j - i; payload = none }
chunk_of raw false i j = record {
  ctype = chunk_type_raw;
  cblks = j - i;
  payload = some (slice raw (i * blk_sz) (j * blk_sz));
}

-- The outer loop from block `i`; again the fuel is the number of blocks.
unfoldable pub collect : Bytes → ℕ → ℕ → ℕ → List Chunk
collect raw total_blks zero i = []
collect raw total_blks (suc fuel) i =
    let zeros = is_zero_blk raw i in
    let j = run_end raw total_blks zeros total_blks (i + 1) in
    let rest = collect raw total_blks fuel j in
    if ltb i total_blks then chunk_of raw zeros i j ∷ rest else []

abbrev pub payload_bytes : Option Bytes → Bytes
payload_bytes none = []
payload_bytes (some b) = b

-- The loop that writes the chunks; a header that cannot be packed leaves a part of the file.
unfoldable pub write_chunks : Text → List Chunk → M (Unit {0})
write_chunks path [] = pure tt
write_chunks path (c ∷ cs) = do
  header ← lift (chunk_header c.ctype c.cblks (length (payload_bytes c.payload)))
  append_file path header
  append_file path (payload_bytes c.payload)
  write_chunks path cs

pub record Converted : Type 0 where
  pub total_blks : ℕ
  pub total_chunks : ℕ
  pub raw_len : ℕ

unfoldable pub convert : Text → Text → M Converted
convert raw_in simg_out = do
  given ← read_file raw_in
  let raw = pad_tail given
  let total_blks = length raw / blk_sz
  let chunks = collect raw total_blks total_blks 0
  write_file simg_out []
  header ← lift (file_header total_blks (length chunks))
  append_file simg_out header
  write_chunks simg_out chunks
  pure (record { total_blks = total_blks; total_chunks = length chunks; raw_len = length raw })
