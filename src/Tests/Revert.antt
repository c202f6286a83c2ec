-- ===== src/Tests/Revert.antt =====
-- The start-up check on concrete disks.
use go_binsync.Prelude.{
  ℕ, ◌≡◌, ◌≢◌, refl, false, List, [], ◌∷◌, ◌++◌, none, some, ok, ◌⊎◌, All, replicate, arith,
}
use go_binsync.Release.Hash.{Hash, to_string}
use go_binsync.Release.Disk.{File, Disk, done}
use go_binsync.Release.Revert.{executed, self_check, read_hash}
use go_binsync.Release.Revert.Resumed.{Fresh, Restored, started, self_check-Restored}
use go_binsync.Release.Revert.Recorded.{self_check-Fresh, self_check-interrupted}

abbrev previous : File
previous = record { inode = 7; content = 1 ∷ 2 ∷ []; symlink = false; world_writable = false }

abbrev installed : File
installed = record { inode = 8; content = 3 ∷ []; symlink = false; world_writable = false }

-- The text of the marker, with the newline of an editor.
abbrev marker : List ℕ
marker = 98 ∷ 51 ∷ 58 ∷ (replicate 64 b'a' ++ 10 ∷ [])

abbrev wanted : Hash
wanted = replicate 32 170

marker_reads : read_hash marker ≡ ok wanted
unfolding read_hash
marker_reads = refl

abbrev crashed : File → Disk
crashed f = record {
  path = some f;
  old = some previous;
  pending = some marker;
  failed = none;
  tmp = none;
  next_inode = 9;
}

two_files : previous.inode ≢ installed.inode
two_files e = omega arith

crashed-Fresh : (f : File) → Fresh previous f marker (crashed f)
crashed-Fresh f = record { at_path = refl; at_old = refl; marked = refl }

self_check-Restored_example :
    All
      (λ d'. Restored previous (self_check false (started d' [])).1.disk)
      (self_check false (started (crashed installed) (none ∷ none ∷ none ∷ some 3 ∷ []))).1.seen
self_check-Restored_example =
    self_check-Restored previous installed marker (crashed installed) (none ∷ some 3 ∷ []) two_files
      (crashed-Fresh installed)

self_check-Fresh_example :
    let r = self_check false (started (crashed installed) []) in
    (r.0 ≡ done executed)
    × (r.1.disk ≡ record (crashed installed) {
      path = some previous;
      old = none;
      pending = none;
      failed = some (to_string wanted);
    })
    × All (λ d'. (d'.path ≡ some installed) ⊎ (d'.failed ≡ some (to_string wanted))) r.1.seen
self_check-Fresh_example =
    self_check-Fresh previous installed marker wanted (crashed installed) two_files
      (crashed-Fresh installed) marker_reads

self_check-interrupted_example :
    let r = self_check false (started (crashed previous) []) in
    (r.0 ≡ done executed)
    × (r.1.disk ≡ record (crashed previous) { pending = none; failed = some (to_string wanted) })
self_check-interrupted_example =
    self_check-interrupted previous marker wanted (crashed previous) (crashed-Fresh previous)
      marker_reads
