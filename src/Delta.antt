-- ===== src/Delta.antt =====
-- delta/: the patch codec.
pub mod Errors
pub mod Buf
pub mod Lz
pub mod Correct
pub mod Container
pub mod Plain
pub mod Codec
pub mod Shifttab
pub mod Go127
