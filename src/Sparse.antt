-- ===== src/Sparse.antt =====
-- tools/mksparse.py: a raw disk image to an Android sparse image, and its self check.
pub mod Format
pub mod Convert
pub mod Verify
pub mod Flash
pub mod Covers
pub mod Image
pub mod Merged
pub mod Steps
pub mod RoundTrip
pub mod Laws
pub mod Size
pub mod SelfCheck
pub mod Accepts
