-- ===== src/Tests/Sparse.antt =====
-- The sparse image tool on an image of a few bytes.
use poly_firmware_build.Base.{
  ◌∷◌, ◌+◌, ◌*◌, ◌≤◌, ◌/◌, ◌^◌, ◌<◌, ◌≡◌, refl, ap, none, some, [], arith, Bytes, Text, codes,
  text_eq, replicate, length, if◌then◌else◌,
}
use poly_firmware_build.Host.{warned, World, done, ok, holding}
use poly_firmware_build.Sparse.Convert.{convert, pad_tail, Converted}
use poly_firmware_build.Sparse.Flash.{flash}
use poly_firmware_build.Sparse.Merged.{merged}
use poly_firmware_build.Sparse.Covers.{Covers, collect-Covers}
use poly_firmware_build.Sparse.Laws.{blocks, HasGaps, chunks_of, length-pad_tail, convert-flash}
use poly_firmware_build.Sparse.Size.{stored_blocks, convert-length}
use poly_firmware_build.Sparse.Accepts.{
  header, cut_image, convert-verify, verify_image-cut_converted,
}
use poly_firmware_build.Sparse.Verify.{round_up, verified_line, verify, verify_image}

abbrev data_file : Bytes
data_file = codes "data"

abbrev raw_in : Text
raw_in = codes "rootfs.img"

abbrev simg_out : Text
simg_out = codes "rootfs.simg"

abbrev world : World
world = record {
  files = λ p. if text_eq p raw_in then some data_file else none;
  stdout = [];
  stderr = [];
}

one_block : blocks (pad_tail data_file) ≡ 1
one_block = ap (λ n. n / 4096) (length-pad_tail data_file)

few : blocks (pad_tail data_file) < 2 ^ 32
few = omega (arith, one_block)

gaps : HasGaps (pad_tail data_file)
gaps i h = absurd (omega (arith, one_block))

world-raw_in : world.files raw_in ≡ some data_file
unfolding text_eq
world-raw_in = refl

convert-flash_example :
    (r : Converted) × (img : Bytes) × (convert raw_in simg_out world
      ≡ done r (holding simg_out img world))
    × ((disk : Bytes)
        → length disk ≡ length (pad_tail data_file)
        → flash img disk ≡ some (merged (pad_tail data_file) (blocks (pad_tail data_file)) 0 disk))
    × (flash img (replicate (length (pad_tail data_file)) 0) ≡ some (pad_tail data_file))
convert-flash_example = convert-flash data_file few gaps raw_in simg_out world world-raw_in

convert-length_example :
    (r : Converted) × (img : Bytes) × (convert raw_in simg_out world
      ≡ done r (holding simg_out img world))
    × (length img ≡ 28 + 12 * r.total_chunks + 4096 * stored_blocks (pad_tail data_file))
    × (4096 * r.total_blks ≡ round_up (length data_file))
    × (r.total_chunks ≤ r.total_blks)
    × (r.total_chunks ≤ 2 * stored_blocks (pad_tail data_file) + 1)
convert-length_example = convert-length data_file few gaps raw_in simg_out world world-raw_in

convert-verify_example :
    (r : Converted) × (w' : World) × (convert raw_in simg_out world ≡ done r w')
    × (verify simg_out raw_in w'
        ≡ done tt (
            warned (verified_line simg_out (header data_file few gaps) (length data_file) ∷ []) w'))
convert-verify_example =
    convert-verify data_file few gaps raw_in simg_out world world-raw_in (unfold text_eq in refl)

verify_image-cut_converted_example :
    verify_image (cut_image (blocks (pad_tail data_file)) (chunks_of (pad_tail data_file)) [])
    ≡ ok (header data_file few gaps)
verify_image-cut_converted_example = verify_image-cut_converted data_file few gaps []

collect-Covers_example :
    Covers (pad_tail data_file) (blocks (pad_tail data_file)) 0 (chunks_of (pad_tail data_file))
collect-Covers_example =
    collect-Covers (pad_tail data_file) (blocks (pad_tail data_file)) (blocks (pad_tail data_file))
      0 (omega arith) (omega arith)
