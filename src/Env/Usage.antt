-- ===== src/Env/Usage.antt =====
-- The text that tools/uboot_env_edit.py prints as its usage.
use poly_firmware_build.Base.{[], ◌∷◌, Text, codes, join}

-- `__doc__`, the module's first string, without its last newline.
abbrev pub usage_text : Text
usage_text = join 10 (
    codes "u-boot env editor for TC8 — read existing block, modify entries, write back with CRC."
    ∷ codes ""
    ∷ codes "The TC8 panel keeps its u-boot environment in a single 4096-byte block on"
    ∷ codes "/dev/mmcblk2 at offset 0x400000 (sector 1024 with bs=4096). The block layout:"
    ∷ codes ""
    ∷ codes "    [0x000..0x004)  little-endian CRC32 of bytes [0x004..0x1000)"
    ∷ codes "    [0x004..0x1000) NUL-separated key=value entries, padded with 0x00"
    ∷ codes ""
    ∷ codes "The CRC is the standard zlib CRC32 (poly 0xEDB88320, init/xorout 0xFFFFFFFF),"
    ∷ codes "matching python's zlib.crc32 directly."
    ∷ codes ""
    ∷ codes "Usage:"
    ∷ codes "    uboot_env_edit.py read  [<host>] [<out.bin>]"
    ∷ codes "    uboot_env_edit.py show  <in.bin>"
    ∷ codes "    uboot_env_edit.py modify <in.bin> <out.bin> <key=value> [<key=value>...]"
    ∷ codes "    uboot_env_edit.py delete <in.bin> <out.bin> <key> [<key>...]"
    ∷ codes "    uboot_env_edit.py preset-symmetric <in.bin> <out.bin>"
    ∷ codes "    uboot_env_edit.py verify <in.bin>"
    ∷ codes ""
    ∷ codes "`read` shells out to ssh on the panel (default: root@192.168.10.244) and"
    ∷ codes "dumps the env block locally. It does NOT write back."
    ∷ codes ""
    ∷ codes "`preset-symmetric` produces an env that:"
    ∷ codes "    - Adds slotaboot mirroring slotbboot but for slot _a (boot_a/dtbo_a sectors)."
    ∷ codes "    - Rewrites slotbboot to use androidboot.slot_suffix=_b instead of root=,"
    ∷ codes "      and adds console=tty0 plus rw rootwait."
    ∷ codes "    - Adds bootcmd_ab that picks slotaboot/slotbboot based on $slot env var,"
    ∷ codes "      falling back to the NXP A/B-aware `boota mmc1`."
    ∷ codes "    - Sets default `slot=b` (current convention)."
    ∷ [])
