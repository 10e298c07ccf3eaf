-- ===== src/Build.antt =====
-- What the tools give together: the ramdisk in the boot image, the images that the boot macros read,
-- and the files that the tools change.
pub mod Ramdisk
pub mod Macro
pub mod Slots
pub mod Refusal
