-- ===== src/Tests.antt =====
-- Tests of the definitions on concrete inputs, and the theorems at such inputs.
mod Env
mod Sparse
mod Gpt
mod Dtbo
mod Initramfs
mod Boot
mod Build
mod Catch
mod Watcher
mod Config
