-- ===== src/Lib.antt =====
-- go-binsync keeps a deployed Go binary identical to a published release. A publisher encodes a
-- patch against the previous release (delta/) and puts patch, blob and pointer into a store
-- (store/); a target polls the pointer, plans what to fetch (release/), applies it, installs the
-- result atomically and restarts the service (agent/, selfupdate/). This library models the parts
-- of that whose correctness is the program's own.
--
-- Files and code, paths from the repository's root:
--
-- - Prelude: Boolean tests, lists and slices over the native numbers, and Result, a Go function's
--   outcome: a value, an error value, or a run-time panic. The outcome stuck is no Go outcome: a
--   loop of the model ran out of fuel.
-- - Int64: the wrapping sum and signed order of int64s, which are bit patterns below 2^64.
-- - Varint: the calls of Go's encoding/binary. Not code of the repository.
-- - Delta/Errors: the error values of delta/, one for each place that makes one, without the
--   numbers in their texts.
-- - Delta/Buf: delta/buf.go. A wbuf is the list of its bytes; each method of rbuf returns its
--   value and the buffer behind it.
-- - Delta/Lz: delta/internal/lz/lz.go. Match has Index, NewIndex, matchLen and Find, Emit has
--   Index.Emit and Emit, Apply has Reader.Apply. Arrays are lists. The tables of an Index hold
--   uint32s, which wrap. NewIndex and Find stand here twice: in Match their lookups are total
--   functions, on which Emit and plainDiff build, and one out of range stands for nothing; in
--   Match/Built, Match/Indexed and Match/Checked they panic at an index or a slice bound out of
--   range, as Go does, and for sources below 2^32 bytes, to which the theorems on Emit, the
--   correction and plainDiff keep, both are shown to give the same. The exclusive or of two words
--   in matchLen and its TrailingZeros64 / 8 are represented by what they mean, the place of the
--   first byte in which the words differ. Apply keeps its cursor as an int64 that wraps, and a
--   slice expression out of bounds panics.
-- - Delta/Correct: delta/correct.go, encodeCorrection (Encode) and applyCorrection (Apply). The
--   buffer that is rewritten in place is passed on. An error of Reader.Apply stays itself, where
--   the source wraps it.
-- - Delta/Plain: delta/plain.go. Runs has diffWriter and diffReader, Encode has encodePlain,
--   plainDiff and packPlain, Patch has plainPatch. A score that may be below 0 stands as what is
--   gained and what is lost; a place in a corrupt stream is an int64 that wraps. The output of
--   plainPatch is the bytes written so far.
-- - Delta/Codec: delta/delta.go, Encode and Apply. Apply's result is what it writes.
-- - Delta/Container: delta/container.go, the header of a patch, and in Body its compressed
--   frames.
-- - Delta/Go127: delta/go127.go, the body of the Go-aware transform, over the tables of a pclntab
--   (delta/layout.go). Parsing, layout and prediction are parameters, any functions at all.
-- - Delta/Shifttab: delta/shifttab.go, Map and the coding of a shift table. sort.Search is a
--   parameter.
-- - Release/Hash: release/hash.go, without the hashing, which is BLAKE3's.
-- - Release/Pointer: release/pointer.go, the data and the checks of ParsePointer behind the JSON
--   decoding, which is a parameter.
-- - Release/Plan: release/plan.go, MakePlan. Right says which way it takes, Cheapest what that
--   costs.
-- - Release/Disk, Release/Install: release/install.go over a disk of five names. Every system
--   call may fail, a write leaving a part of its bytes, and a crash leaves one of the disks that
--   a run passes through. BLAKE3 is a parameter. The search permission of the directory, file
--   modes other than the two that are checked, and durability across a power loss are not
--   modelled.
-- - Release/Revert: the rest of release/install.go, Revert and the pending and failed markers,
--   and selfCheck of selfupdate/selfupdate.go, which acts on them at start-up. The text of
--   strings.TrimSpace is UTF-8; execve ends the process where it succeeds.
-- - Release/Blob: release/blob.go, with internal/cz/cz.go in Cz, the memory limit of its zstd
--   decoder included. BLAKE3 and the compressors are parameters.
-- - Agent: agent/agent.go, the update loop over the disk of Release/Disk. One cycle meets one
--   World: the store's answer to the poll, what build returns, the hooks. Fetch has build,
--   applyChain, object and get of agent/fetch.go. A build that panics ends the process, and is
--   left out of World, so that a theorem on cycles says that build returns. make panics for a
--   negative length only: running out of memory is not modelled. Older has what a cycle makes of
--   an older pointer. A cycle's error, which is only logged, is left out beside its outcome.
-- - Agent/Frames: fetchBlob, fetchFrames and frame of agent/fetch.go. What the workers share is a
--   state; each call of a worker, a failure and a stop of the agent are steps, in any order.
--   Retries within a frame are one step. The deadline and the pauses between passes are not
--   modelled: another pass may follow any that met a missing blob.
-- - Publish: cmd/go-binsync/publish.go, blob.go and cache.go. A publisher is a Prog, a tree of
--   the calls that it makes (Program). Store has the contract of store/store.go and the system: a
--   store and any number of publishers, whose calls take turns, may fail with or without effect,
--   and may never go on. Fetch has blob.go, whose parallel requests are made in order. Right says
--   what a store may hold, Safe that no call of a publisher breaks it, Reach what follows for
--   every state, Update what a target makes of it.
-- - Tests: runs on concrete inputs and the theorems at concrete inputs.
--
-- Fuel: a varint of a uint64 has ten groups; Apply and Emit move on by a byte in each round, so
-- the length of the output is enough; a region grows with each round but the last, and a gap
-- takes at most six; frameBody takes a whole frame in each round but the last; each round of
-- plainDiff takes the scan and the match at it on by a byte, or is the last, and each round of
-- diffReader.add and of decodeShiftTable uses up bytes of the stream or is the last; TrimSpace
-- takes a character in each round. The bounds 2^56 and 2^62 on lengths keep sums of ints below
-- 2^63.
--
-- Not modelled: the parsing, layout and prediction of the Go-aware transform, which read machine
-- code and ELF files through other libraries; the handoff between processes; the clients behind
-- the store interface; and the command line around the publisher. That an ETag stands for one
-- version of an object, and that the short digits in the keys of patches tell the releases apart,
-- are suppositions of Publish.
pub mod Prelude
pub mod Varint
pub mod Cz
pub mod Delta
pub mod Int64
pub mod Release
pub mod Agent
pub mod Publish
pub mod Tests
