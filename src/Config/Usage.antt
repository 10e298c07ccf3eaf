-- ===== src/Config/Usage.antt =====
-- The text with which tools/mkconfigblob.py ends where its command line is too short.
use Prim.Native.String
use poly_firmware_build.Base.{String, List, [], ◌∷◌}

-- Lines, each with its newline.
abbrev with_newlines : List String → String
with_newlines [] = ""
with_newlines (l ∷ ls) = String.◌++◌ l (String.◌++◌ "\n" (with_newlines ls))

-- `__doc__`, the module's first string.
abbrev pub usage_message : String
usage_message = with_newlines (
    "mkconfigblob.py — build a TC8 cache-partition image (see ../CONFIG-PARTITION.md)." ∷ ""
    ∷ "The image is written to the START of the `cache` GPT partition over fastboot"
    ∷ "(`fastboot flash cache <image>`); the on-device readers validate + apply it at"
    ∷ "boot. This is the reference builder + a CLI helper; the wizard builds the same"
    ∷ "bytes in JS." ∷ "" ∷ "Usage:" ∷ "  mkconfigblob.py OUT KEY=value [KEY=value ...]"
    ∷ "  mkconfigblob.py OUT --bootloader STAGE2.bin KEY=value ...   # also stage a stage-2"
    ∷ "  mkconfigblob.py OUT --from FILE                              # KEY=value lines from a file"
    ∷ "" ∷ "Layout (little-endian):"
    ∷ "  off 0       config blob:  magic \"TC8CFGv1\"(8) | len u32(4) | sha256(32) | rsvd(20) | payload(N)"
    ∷ "  off 1 MiB   bootloader header sector (only with --bootloader):"
    ∷ "              magic \"TC8BOOT1\"(8) | len u32(4) | sha256(image,32) | rsvd"
    ∷ "  off 1 MiB+512  the stage-2 image (sector-aligned)" ∷ [])
