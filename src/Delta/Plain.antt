-- ===== src/Delta/Plain.antt =====
-- delta/plain.go: the plain codec. Runs has the difference stream (diffWriter and diffReader), Encode
-- plainDiff, Patch plainPatch.
pub mod Runs
pub mod Encode
pub mod Patch
pub mod RoundTrip
