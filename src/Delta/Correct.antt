-- ===== src/Delta/Correct.antt =====
-- delta/correct.go: the correction that turns a prediction into the real file.
pub mod Encode
pub mod Apply
pub mod RoundTrip
