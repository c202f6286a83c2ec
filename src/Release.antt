-- ===== src/Release.antt =====
-- release/: the metadata of a release stream, the plan that a target derives from it, and the
-- install and revert of a binary.
pub mod Hash
pub mod Pointer
pub mod Plan
pub mod Blob
pub mod Disk
pub mod Install
pub mod Revert
