-- ===== src/Env/Slots.antt =====
-- The constants of the boot macros, and `_slot_macro`.
use poly_firmware_build.Base.{ℕ, ◌-◌, ◌++◌, Text, codes, hex}

abbrev pub env_block_size : ℕ
env_block_size = 4096

abbrev pub env_data_size : ℕ
env_data_size = env_block_size - 4

abbrev pub boot_a_lba : ℕ
boot_a_lba = 0x8000

abbrev pub boot_b_lba : ℕ
boot_b_lba = 0x20000

abbrev pub dtbo_a_lba : ℕ
dtbo_a_lba = 0x4000

abbrev pub dtbo_b_lba : ℕ
dtbo_b_lba = 0x6000

abbrev pub boot_len : ℕ
boot_len = 0x14800

abbrev pub dtbo_len : ℕ
dtbo_len = 0x100

abbrev pub kernel_load : ℕ
kernel_load = 0x40000000

abbrev pub dtb_load : ℕ
dtb_load = 0x43400000

abbrev pub booti_kernel : ℕ
booti_kernel = 0x40000800

unfoldable pub common_bootargs : Text
common_bootargs =
    codes "console=tty0 console=ttymxc1,115200 "
    ++ codes "earlycon=ec_imx6q,0x30890000,115200 keep_bootcon panic=10"

unfoldable pub slot_macro : Text → ℕ → ℕ → Text
unfolding common_bootargs hex
slot_macro suffix boot_lba dtbo_lba =
    codes "mmc dev 1; "
    ++ (codes "mmc read "
        ++ hex kernel_load
        ++ codes " "
        ++ hex boot_lba
        ++ codes " "
        ++ hex boot_len
        ++ codes "; ")
    ++ (codes "mmc read "
        ++ hex dtb_load
        ++ codes " "
        ++ hex dtbo_lba
        ++ codes " "
        ++ hex dtbo_len
        ++ codes "; ")
    ++ (codes "setenv bootargs \"" ++ common_bootargs ++ codes " ")
    ++ (codes "androidboot.slot_suffix=" ++ suffix ++ codes " rw rootwait\"; ")
    ++ (codes "booti " ++ hex booti_kernel ++ codes " - " ++ hex dtb_load)

unfoldable pub slotaboot : Text
unfolding slot_macro
slotaboot = slot_macro (codes "_a") boot_a_lba dtbo_a_lba

unfoldable pub slotbboot : Text
unfolding slot_macro
slotbboot = slot_macro (codes "_b") boot_b_lba dtbo_b_lba

unfoldable pub bootcmd_ab : Text
bootcmd_ab =
    codes "if test \"${slot}\" = \"a\"; then run slotaboot; fi; "
    ++ codes "run slotbboot; "
    ++ codes "boota mmc1"
