-- ===== src/Lib.antt =====
-- The Python tools of the firmware build: a model of each tool, and the theorems about it.
--
-- The tools build and check the binary images that the shell scripts flash:
-- tools/uboot_env_edit.py edits the panel's u-boot environment block, tools/mksparse.py turns a
-- raw root filesystem image into an Android sparse image, gpt-restore/make-gpt-restore.py writes a
-- sparse image of the partition table, and tools/mkdtboimg.py, tools/mkinitramfs.py and
-- tools/mkbootimg.py pack a device tree, the boot ramdisk and the boot image, and
-- tools/mkconfigblob.py builds the image of the cache partition. smoke/catch_uboot.py and
-- smoke/uboot_watch.py stop a panel in u-boot, over a WebSocket and over a serial line. They share
-- no code; each is a command over files.
--
-- Base holds the shared lists, texts and tests. Texts and bytes are lists of numbers: code points,
-- and bytes below 256. Pack is Python's `struct` for unsigned fields and zlib's `crc32`. Host is
-- what the tools use of their host: exceptions, files, standard output and standard error. A write
-- to a file does not fail.
--
-- Env models tools/uboot_env_edit.py. Env.Dict is the dict of entries in the order of insertion,
-- Env.Slots the boot macros, Env.Block the functions `parse_env`, `serialize_env` and
-- `verify_block`, and Env.Commands the subcommands and `main`, with the command line `ssh` as a
-- parameter. A dict has distinct keys: `NodupKeys`. Children of Env.Block and Env.Commands hold the
-- proofs.
--
-- Sparse models tools/mksparse.py. Sparse.Format has the headers, Sparse.Convert the function
-- `convert`, Sparse.Verify `verify` and `main`. The loops of `convert` take the number of blocks as
-- fuel, which Sparse.Covers shows to be enough. Sparse.Flash is an independent reading of the
-- format: what flashing an image does to a disk, and Sparse.Merged says block by block what it has
-- to give. The other children hold the proofs.
--
-- Gpt models gpt-restore/make-gpt-restore.py, and Gpt.Restore flashes its image with the same
-- reading of the format. Dtbo models tools/mkdtboimg.py, and Dtbo.Layout reads its container back.
--
-- Initramfs models tools/mkinitramfs.py, with `gzip.compress` as a parameter. Initramfs.Newc reads
-- the cpio format back, and its siblings prove that it finds what the tool put in.
--
-- Boot models tools/mkbootimg.py, with the digest of `hashlib.sha1` as a parameter. Boot.Loader
-- reads an image as a boot loader does. Argument parsers are libraries: the tools with one start
-- from the parsed command line, a record `Namespace` or the arguments of `main`.
--
-- Catch models smoke/catch_uboot.py. Catch.Socket is a socket as the list of what its calls of
-- `recv` return, behind which nothing more comes. Catch.Connect has `ws_connect`, Catch.Frame
-- `ws_send_binary` and the reading of one frame, Catch.Receive `ws_recv_all_available`, whose loop
-- has the length of the stream as fuel, and Catch.Console `main` over explicit rounds with times
-- in milliseconds. Catch.Rfc cuts a whole stream into frames at once; Catch.Waiting, Catch.Cut,
-- Catch.Shrinks, Catch.Used, Catch.Round and Catch.Stream relate the loop to it, and Catch.Shortens
-- and Catch.Returns take sockets whose calls raise. Catch.Watching is the state at the head of a
-- round of `main`, which Catch.Burst and Catch.Watch keep. Random bytes are parameters;
-- `sendall` may send a part of a frame before it raises; sleeping and printing are left out.
--
-- Config models tools/mkconfigblob.py, with the digest of `hashlib.sha256` as a parameter, and
-- Config.Reader finds the two parts as CONFIG-PARTITION.md has the device find them.
--
-- Watcher models smoke/uboot_watch.py as a step relation: each round takes the data and the clock
-- that the step brings. Watcher.Order and Watcher.Progress prove what it has done in each phase and
-- that it goes on, Watcher.Failure what it has done where a write fails.
--
-- A child Refusal says what a tool does to the files whatever its inputs, by the lemmas of
-- Host.Writes.
--
-- Build puts the tools together: Build.Ramdisk runs the two that make the boot image in a row, and
-- Build.Macro carries out the boot macros on a disk as u-boot does, for Build.Slots to say what they
-- find of the images that two of the tools make, and Build.Refusal brings the children Refusal
-- together.
--
-- Not modelled: tools/avbtool, a copy of another project's tool, the HTTP calls of
-- smoke/uboot_watch.py behind what they return or raise, and the shell scripts of the build.
pub mod Base
pub mod Boot
pub mod Build
pub mod Catch
pub mod Config
pub mod Dtbo
pub mod Env
pub mod Gpt
pub mod Host
pub mod Initramfs
pub mod Pack
pub mod Sparse
pub mod Tests
pub mod Watcher
