-- ===== src/Agent/Names.antt =====
-- What the system calls of an update do to the two names Path and Path.old.
use go_binsync.Prelude.{ℕ, ◌≡◌, refl, true, false, take, List, [], Option, none, some}
use go_binsync.Release.Hash.{Hash, to_string}
use go_binsync.Release.Disk.{
  File, Disk, IoError, Run, done, Io, raise, ◌>>◌, catch, ignore, or_missing, allow_missing,
  unchanged, quiet,
}
use go_binsync.Release.Disk.Triples.{
  Ends, Ends-both, Triple, Triple-pure, Triple-raise, Triple-sys, Triple-bind, Triple-catch,
  Triple-quiet, Triple-cleanup,
}
use go_binsync.Release.Install.{sync_dir, removed_pending, remove_pending}
use go_binsync.Release.Revert.{
  present, stat_old, stat_pending, clear_pending, mark_failed, open_failed, write_failed,
}
use go_binsync.Agent.{attempt}

-- A hook that touches none of the names.
pub record LeavesAlone (m : Io (Unit {0})) : Type 0 where
  pub same_disk : (r : Run) → (m r).1.disk ≡ r.disk
  pub same_seen : (r : Run) → (m r).1.seen ≡ r.seen

pub attempt-Triple :
    {P Q Inv : Disk → Type 0} {Fail : IoError → Disk → Type 0} (m : Io (Unit {0}))
    → Triple P Inv m (λ _. Q) (λ _. Q)
    → Triple P Inv (attempt m) (λ _. Q) Fail
unfolding attempt
attempt-Triple m t =
    Triple-catch (Triple-bind t λ _. Triple-pure true (λ d p. p))
      (λ e. Triple-pure false (λ d p. p))

-- What is said of the two names Path and Path.old stays, whatever is done to the others.
module _ (Inv : Disk → Type 0) (R : Option File → Option File → Type 0)
    (holds : (d : Disk) → R d.path d.old → Inv d) where
  abbrev pub Named : Disk → Type 0
  Named d = R d.path d.old

  abbrev pub Keeps : {A : Type 0} → Io A → Type 0
  Keeps m = Triple Named Inv m (λ _. Named) (λ _. Named)

  pub Keeps-quiet : Keeps quiet
  Keeps-quiet = Triple-quiet holds

  pub Keeps-open_failed : Keeps open_failed
  unfolding open_failed
  Keeps-open_failed =
      Triple-sys (λ d. (done tt, record d { failed = some [] })) unchanged
        (λ d p. (holds (record d { failed = some [] }) p, p)) (λ n d p. (holds d p, p))

  pub Keeps-write_failed : (text : List ℕ) → Keeps (write_failed text)
  unfolding write_failed
  Keeps-write_failed text =
      Triple-sys _ _ (λ d p. (holds (record d { failed = some text }) p, p))
        (λ n d p. (holds (record d { failed = some (take n text) }) p, p))

  mark_failed_lem :
      (h : Hash)
      → mark_failed h ≡ (
          quiet
          >> (open_failed
              >> (catch (write_failed (to_string h) >> quiet) (λ e. ignore quiet >> raise e)
                  >> quiet)))
  unfolding mark_failed
  mark_failed_lem h = refl

  pub Keeps-mark_failed : (h : Hash) → Keeps (mark_failed h)
  Keeps-mark_failed h = rw (mark_failed_lem h) (
      Triple-bind Keeps-quiet λ _. Triple-bind Keeps-open_failed λ _.
        Triple-bind
          (Triple-cleanup (Triple-bind (Keeps-write_failed (to_string h)) λ _. Keeps-quiet)
            Keeps-quiet)
          λ _. Keeps-quiet)

  pub Keeps-stat_old : Keeps stat_old
  unfolding stat_old
  Keeps-stat_old =
      Triple-sys _ _ (λ d p. (holds d p, Ends-both Named (present d.old) d p))
        (λ n d p. (holds d p, p))

  pub Keeps-stat_pending : Keeps stat_pending
  unfolding stat_pending
  Keeps-stat_pending =
      Triple-sys _ _ (λ d p. (holds d p, Ends-both Named (present d.pending) d p))
        (λ n d p. (holds d p, p))

  pub Keeps-allow_missing : (m : Io (Unit {0})) → Keeps m → Keeps (allow_missing m)
  unfolding allow_missing
  Keeps-allow_missing m t = Triple-catch t by_error
    where
      by_error : (e : IoError) → Keeps (or_missing e)
      by_error IoError.not_exist = Triple-pure tt (λ d p. p)
      by_error IoError.call_failed = Triple-raise _ (λ d p. p)
      by_error IoError.symlink_path = Triple-raise _ (λ d p. p)
      by_error IoError.writable_path = Triple-raise _ (λ d p. p)
      by_error IoError.wrong_hash = Triple-raise _ (λ d p. p)
      by_error IoError.nothing_to_revert = Triple-raise _ (λ d p. p)

  pub Keeps-remove_pending : Keeps remove_pending
  unfolding remove_pending
  Keeps-remove_pending = Triple-sys _ _ (λ d p. by_marker d d.pending p) (λ n d p. (holds d p, p))
    where
      by_marker :
          (d : Disk) (o : Option (List ℕ))
          → Named d
          → Inv (removed_pending d o).1
            × Ends (λ _. Named) (λ _. Named) (removed_pending d o).0 (removed_pending d o).1
      by_marker d none p = (holds d p, p)
      by_marker d (some t) p = (holds (record d { pending = none }) p, p)

  pub Keeps-sync_dir : Keeps sync_dir
  unfolding sync_dir
  Keeps-sync_dir = Triple-bind Keeps-quiet λ _. Keeps-quiet

  pub Keeps-clear_pending : Keeps clear_pending
  unfolding clear_pending
  Keeps-clear_pending =
      Triple-bind (Keeps-allow_missing remove_pending Keeps-remove_pending) λ _. Keeps-sync_dir

  pub Keeps-attempt : (m : Io (Unit {0})) → Keeps m → Keeps (attempt m)
  Keeps-attempt m t = attempt-Triple m t

  pub Keeps-alone : (m : Io (Unit {0})) → LeavesAlone m → Keeps m
  Keeps-alone m h = record {
    run = λ r p s.
        let disk = h.same_disk r in
        (rw (h.same_seen r) s, Ends-both Named (m r).0 (m r).1.disk (rw disk p));
  }
