-- ===== src/Release/Revert/Recorded.antt =====
-- What a start-up check without failures leaves, and in which order.
use go_binsync.Prelude.{
  ℕ, ◌≡◌, ◌≢◌, refl, false, List, [], none, some, ok, ◌⊎◌, inl, inr, All, ==_iff,
}
use go_binsync.Release.Hash.{Hash, to_string}
use go_binsync.Release.Disk.{File, Disk, done}
use go_binsync.Release.Install.{rename_old, remove_pending, sync_dir}
use go_binsync.Release.Revert.{
  executed, self_check, pending, act_on, put_back, restart, revert, mark_failed, read_hash,
  read_pending, stat_old, open_failed, write_failed,
}
use go_binsync.Release.Revert.Resumed.{Fresh, started, same_disk, other_inode}

-- Where an install was never confirmed, its marker reads as a release, the previous binary is at
-- Path.old and another file than the one installed, a start-up check without a failing call
-- records that release as failed, puts the previous binary back, removes the marker and runs the
-- previous binary; and no crash on the way leaves another disk than one with the installed binary
-- at the path or with that record.
pub self_check-Fresh :
    (f g : File) (t : List ℕ) (want : Hash) (d : Disk)
    → f.inode ≢ g.inode
    → Fresh f g t d
    → read_hash t ≡ ok want
    → let r = self_check false (started d []) in
      (r.0 ≡ done executed)
      × (r.1.disk
          ≡ record d { path = some f; old = none; pending = none; failed = some (to_string want) })
      × All (λ d'. (d'.path ≡ some g) ⊎ (d'.failed ≡ some (to_string want))) r.1.seen
unfolding self_check pending read_pending act_on put_back stat_old mark_failed open_failed
    write_failed revert rename_old remove_pending sync_dir restart
self_check-Fresh f g t want d apart h read =
    rw (same_disk d _ _ _ h.at_path h.at_old h.marked) rw (read, other_inode f g apart)
      (
        refl,
        refl,
        (
          inr refl,
          (
            inr refl,
            (
              inr refl,
              (
                inr refl,
                (
                  inr refl,
                  (
                    inl refl,
                    (inl refl, (inl refl, (inl refl, (inl refl, (inl refl, (inl refl, tt)))))),
                  ),
                ),
              ),
            ),
          ),
        ),
      )

-- Where both Path and Path.old are the previous binary, as a crash of Install between the marker
-- and the rename leaves them, and the marker reads as a release, a start-up check without a
-- failing call keeps both names, removes the marker, records that release as failed, and runs the
-- binary at the path.
pub self_check-interrupted :
    (f : File) (t : List ℕ) (want : Hash) (d : Disk)
    → Fresh f f t d
    → read_hash t ≡ ok want
    → let r = self_check false (started d []) in
      (r.0 ≡ done executed)
      × (r.1.disk ≡ record d { pending = none; failed = some (to_string want) })
unfolding self_check pending read_pending act_on put_back stat_old mark_failed open_failed
    write_failed revert rename_old remove_pending sync_dir restart
self_check-interrupted f t want d h read =
    rw (same_disk d _ _ _ h.at_path h.at_old h.marked) rw (read, (==_iff f.inode f.inode).1 refl)
      (refl, refl)
