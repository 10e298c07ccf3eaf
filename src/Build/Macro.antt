-- ===== src/Build/Macro.antt =====
-- The boot macros of tools/uboot_env_edit.py, as u-boot carries them out: `mmc read` fills memory with
-- blocks of 512 bytes of the disk, and `booti` starts what it finds at two addresses.
use poly_firmware_build.Base.{
  ℕ, ◌+◌, ◌-◌, ◌*◌, ◌≡◌, refl, ◌&&◌, Option, none, some, List, [], ◌∷◌, ltb, leb, map,
  if◌then◌else◌, Bytes, Text, codes, text_eq, drop, slice, split,
}
use poly_firmware_build.Env.Slots.{
  slotaboot, slotbboot, boot_a_lba, boot_b_lba, dtbo_a_lba, dtbo_b_lba, boot_len, dtbo_len,
  slot_macro,
}

-- `mmc read ADDRESS BLOCK COUNT`, `booti KERNEL - FDT`, and any other command.
pub data Command : Type 0 where
  reading : ℕ → ℕ → ℕ → Command
  booting : ℕ → ℕ → Command
  other : Command

-- A number in lower case hexadecimal digits behind `0x`.
abbrev number_from : ℕ → Text → ℕ
number_from n [] = n
number_from n (c ∷ cs) = number_from (n * 16 + (if ltb c 58 then c - 48 else c - 87)) cs

abbrev number : Text → ℕ
number t = number_from 0 (drop 2 t)

abbrev without_empty : List Text → List Text
without_empty [] = []
without_empty ([] ∷ ts) = without_empty ts
without_empty ((c ∷ cs) ∷ ts) = (c ∷ cs) ∷ without_empty ts

abbrev command : List Text → Command
command (a ∷ b ∷ address ∷ block ∷ count ∷ []) =
    if text_eq a (codes "mmc") && text_eq b (codes "read")
    then reading (number address) (number block) (number count)
    else other
command (a ∷ kernel ∷ ramdisk ∷ fdt ∷ []) =
    if text_eq a (codes "booti") && text_eq ramdisk (codes "-")
    then booting (number kernel) (number fdt)
    else other
command _ = other

-- The commands of a text, separated by `;`, and the words of each by spaces.
unfoldable pub commands : Text → List Command
commands t = map (λ c. command (without_empty (split 32 c))) (split 59 t)

-- A part of memory: its address, its size and what it begins with.
pub record Region : Type 0 where
  pub address : ℕ
  pub size : ℕ
  pub content : Bytes

-- What memory holds from an address on; the last region read into it counts.
abbrev pub fetch : ℕ → List Region → Bytes
fetch a [] = []
fetch a (r ∷ rs) =
    if leb r.address a && ltb a (r.address + r.size)
    then drop (a - r.address) r.content
    else fetch a rs

-- What memory holds at the two addresses of `booti`.
pub record Booted : Type 0 where
  pub kernel_at : Bytes
  pub fdt_at : Bytes

unfoldable pub carry_out : List Command → Bytes → List Region → Option Booted
carry_out [] disk memory = none
carry_out (reading address block count ∷ cs) disk memory = carry_out cs disk (
    record {
      address = address;
      size = count * 512;
      content = slice disk (block * 512) ((block + count) * 512);
    }
    ∷ memory)
carry_out (booting kernel fdt ∷ cs) disk memory =
    some (record { kernel_at = fetch kernel memory; fdt_at = fetch fdt memory })
carry_out (other ∷ cs) disk memory = carry_out cs disk memory

pub data Slot : Type 0 where
  slot_a slot_b : Slot

abbrev pub macro_of : Slot → Text
macro_of slot_a = slotaboot
macro_of slot_b = slotbboot

abbrev pub boot_lba : Slot → ℕ
boot_lba slot_a = boot_a_lba
boot_lba slot_b = boot_b_lba

abbrev pub dtbo_lba : Slot → ℕ
dtbo_lba slot_a = dtbo_a_lba
dtbo_lba slot_b = dtbo_b_lba

-- Sectors read of a partition.
abbrev pub sectors : Bytes → ℕ → ℕ → Bytes
sectors disk block count = slice disk (block * 512) ((block + count) * 512)

-- The macros read the two partitions of their slot and start the kernel behind one page of 2048
-- bytes.
pub carry_out-macro :
    (s : Slot) (disk : Bytes)
    → carry_out (commands (macro_of s)) disk []
      ≡ some (record {
        kernel_at = drop 2048 (sectors disk (boot_lba s) boot_len);
        fdt_at = sectors disk (dtbo_lba s) dtbo_len;
      })
unfolding commands carry_out slotaboot slotbboot slot_macro text_eq split drop
carry_out-macro slot_a disk = refl
carry_out-macro slot_b disk = refl
