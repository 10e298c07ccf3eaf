-- ===== src/Env.antt =====
-- tools/uboot_env_edit.py: the editor of the panel's u-boot environment block.
pub mod Dict
pub mod Slots
pub mod Usage
pub mod Block
pub mod Commands
