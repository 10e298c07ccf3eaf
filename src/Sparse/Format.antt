-- ===== src/Sparse/Format.antt =====
-- The constants and the two headers of the sparse format; all fields are little-endian.
use poly_firmware_build.Base.{ℕ, ◌+◌, List, [], ◌∷◌, Bytes}
use poly_firmware_build.Host.{Result, from_option, struct_error}
use poly_firmware_build.Pack.{little, Fields, pack}

abbrev pub sparse_magic : ℕ
sparse_magic = 0xed26ff3a

abbrev pub major_version : ℕ
major_version = 1

abbrev pub minor_version : ℕ
minor_version = 0

abbrev pub file_hdr_sz : ℕ
file_hdr_sz = 28

abbrev pub chunk_hdr_sz : ℕ
chunk_hdr_sz = 12

abbrev pub blk_sz : ℕ
blk_sz = 4096

abbrev pub chunk_type_raw : ℕ
chunk_type_raw = 0xcac1

abbrev pub chunk_type_fill : ℕ
chunk_type_fill = 0xcac2

abbrev pub chunk_type_dont_care : ℕ
chunk_type_dont_care = 0xcac3

abbrev pub chunk_type_crc32 : ℕ
chunk_type_crc32 = 0xcac4

-- The fields of `sparse_header_t`, for any block size.
abbrev pub sparse_fields : ℕ → ℕ → ℕ → Fields
sparse_fields block total_blks total_chunks =
    (4, sparse_magic)
    ∷ (2, major_version)
    ∷ (2, minor_version)
    ∷ (2, file_hdr_sz)
    ∷ (2, chunk_hdr_sz)
    ∷ (4, block)
    ∷ (4, total_blks)
    ∷ (4, total_chunks)
    ∷ (4, 0)
    ∷ []

unfoldable pub file_header : ℕ → ℕ → Result Bytes
file_header total_blks total_chunks =
    from_option struct_error (pack little (sparse_fields blk_sz total_blks total_chunks))

-- The fields of `chunk_header_t`.
abbrev pub chunk_fields : ℕ → ℕ → ℕ → Fields
chunk_fields chunk_type chunk_blks data_len =
    (2, chunk_type) ∷ (2, 0) ∷ (4, chunk_blks) ∷ (4, chunk_hdr_sz + data_len) ∷ []

unfoldable pub chunk_header : ℕ → ℕ → ℕ → Result Bytes
chunk_header chunk_type chunk_blks data_len =
    from_option struct_error (pack little (chunk_fields chunk_type chunk_blks data_len))

-- The widths of the fields of the two headers.
abbrev pub file_widths : List ℕ
file_widths = 4 ∷ 2 ∷ 2 ∷ 2 ∷ 2 ∷ 4 ∷ 4 ∷ 4 ∷ 4 ∷ []

abbrev pub chunk_widths : List ℕ
chunk_widths = 2 ∷ 2 ∷ 4 ∷ 4 ∷ []
