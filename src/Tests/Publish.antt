-- ===== src/Tests/Publish.antt =====
-- Two publishes into one store, and an update from the first release to the second.
mod Json
mod Site
mod Trace
mod Update
