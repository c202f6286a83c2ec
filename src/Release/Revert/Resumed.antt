-- ===== src/Release/Revert/Resumed.antt =====
-- The start-up check puts the previous binary back, and where it is cut off, the next one does.
use go_binsync.Prelude.{
  ℕ, ◌≡◌, ◌≢◌, refl, take, sym, true, false, List, [], ◌∷◌, Option, none, some, Result, ok, err,
  panic, stuck, ◌⊎◌, inl, inr, All, All_mono, ◌==◌, arith,
}
use go_binsync.Release.Hash.{Hash, HashError, to_string}
use go_binsync.Release.Disk.{
  File, Disk, IoError, Run, Io, allow_missing, or_missing, not_exist, quiet,
}
use go_binsync.Release.Disk.Triples.{
  Ends, Triple, Triple-pure, Triple-raise, Triple-sys, Triple-bind, Triple-catch, Triple-weaken,
  Triple-quiet, Triple-ignore, Triple-cleanup,
}
use go_binsync.Release.Install.{rename_old, remove_pending, sync_dir, reverted, removed_pending}
use go_binsync.Release.Revert.{
  Pending, StartError, self_check, pending, act_on, put_back, restart, revert, mark_failed,
  read_hash, read_pending, stat_old, missing_old, clear_pending, open_failed, write_failed, parsed,
}

abbrev pub started : Disk → List (Option ℕ) → Run
started d faults = record { disk = d; seen = []; faults = faults }

-- The installed binary is at the path, with the previous one and a marker beside it.
pub record Fresh (previous installed : File) (marker : List ℕ) (d : Disk) : Type 0 where
  pub at_path : d.path ≡ some installed
  pub at_old : d.old ≡ some previous
  pub marked : d.pending ≡ some marker

pub record Back (previous : File) (d : Disk) : Type 0 where
  pub at_path : d.path ≡ some previous
  pub no_old : d.old ≡ none

pub other_inode : (f g : File) → f.inode ≢ g.inode → (f.inode == g.inode) ≡ false
other_inode f g h = ground arith

abbrev pub disk : Option File → Option File → Option (List ℕ) → Disk → Disk
disk p o m d = record d { path = p; old = o; pending = m }

pub same_disk :
    (d : Disk) (p o : Option File) (m : Option (List ℕ))
    → d.path ≡ p
    → d.old ≡ o
    → d.pending ≡ m
    → d ≡ disk p o m d
same_disk d p o m hp ho hm = rw (sym hp, sym ho, sym hm) refl

parsed_found : (r : Result HashError Hash) → (parsed r).found ≡ true
parsed_found (ok h) = refl
parsed_found (err e) = refl
parsed_found panic = refl
parsed_found stuck = refl

-- What a check without faults leaves.
abbrev pub Restored : File → Disk → Type 0
Restored f d = (d.path ≡ some f) × (d.pending ≡ none)

act_on-back :
    (f : File) (t : List ℕ) (d : Disk) (p : Pending) (l : List Disk)
    → p.found ≡ true
    → Restored f
        (act_on p (record { disk = disk (some f) none (some t) d; seen = l; faults = [] })).1.disk
unfolding act_on put_back clear_pending remove_pending sync_dir stat_old
act_on-back f t d p l h = rw h (refl, refl)

act_on-fresh :
    (f g : File) (t : List ℕ) (d : Disk) (p : Pending) (l : List Disk)
    → p.found ≡ true
    → f.inode ≢ g.inode
    → Restored f
        (act_on p
          (record { disk = disk (some g) (some f) (some t) d; seen = l; faults = [] })).1.disk
unfolding act_on put_back mark_failed revert restart rename_old remove_pending sync_dir stat_old
act_on-fresh f g t d p l h k = rw (h, other_inode f g k) (refl, refl)

back-Restored :
    (f : File) (m : Option (List ℕ)) (d : Disk)
    → Restored f (self_check false (started (disk (some f) none m d) [])).1.disk
unfolding self_check pending read_pending act_on
back-Restored f none d = (refl, refl)
back-Restored f (some t) d = act_on-back f t d (parsed (read_hash t)) _ (parsed_found (read_hash t))

fresh-Restored :
    (f g : File) (t : List ℕ) (d : Disk)
    → f.inode ≢ g.inode
    → Restored f (self_check false (started (disk (some g) (some f) (some t) d) [])).1.disk
unfolding self_check pending read_pending
fresh-Restored f g t d h =
    act_on-fresh f g t d (parsed (read_hash t)) _ (parsed_found (read_hash t)) h

module _ (f g : File) (t : List ℕ) (apart : f.inode ≢ g.inode) where
  abbrev F : Disk → Type 0
  F = Fresh f g t

  abbrev B : Disk → Type 0
  B = Back f

  abbrev R : Disk → Type 0
  R d = F d ⊎ B d

  abbrev Keeps : (Disk → Type 0) → Io (Unit {0}) → Type 0
  Keeps P m = Triple P R m (λ _. P) (λ _. P)

  open_failed-Keeps : Keeps F open_failed
  unfolding open_failed
  open_failed-Keeps = Triple-sys _ _ (λ d p. let q = again d p in (inl q, q)) (λ n d p. (inl p, p))
    where
      again : (d : Disk) → F d → F (record d { failed = some [] })
      again d p = record { at_path = p.at_path; at_old = p.at_old; marked = p.marked }

  write_failed-Keeps : (text : List ℕ) → Keeps F (write_failed text)
  unfolding write_failed
  write_failed-Keeps text =
      Triple-sys _ _ (λ d p. let q = again d text p in (inl q, q))
        (λ n d p. let q = again d (take n text) p in (inl q, q))
    where
      again : (d : Disk) (x : List ℕ) → F d → F (record d { failed = some x })
      again d x p = record { at_path = p.at_path; at_old = p.at_old; marked = p.marked }

  quiet-F : Keeps F quiet
  quiet-F = Triple-quiet (λ d p. inl p)

  quiet-B : Keeps B quiet
  quiet-B = Triple-quiet (λ d p. inr p)

  mark_failed-Keeps : (h : Hash) → Keeps F (mark_failed h)
  unfolding mark_failed
  mark_failed-Keeps h = Triple-bind quiet-F λ _. Triple-bind open_failed-Keeps λ _.
      Triple-bind
        (Triple-cleanup (Triple-bind (write_failed-Keeps (to_string h)) (λ _. quiet-F)) quiet-F)
        (λ _. quiet-F)

  -- What the rename knows where it fails: Path.old is there.
  abbrev Cut : IoError → Disk → Type 0
  Cut not_exist d = ⊥
  Cut _ d = F d

  rename_old-Triple : Triple F R rename_old (λ _. B) Cut
  unfolding rename_old
  rename_old-Triple = Triple-sys _ _ (λ d p. cases d p) (λ n d p. (inl p, p))
    where
      cases :
          (d : Disk)
          → F d
          → R (reverted d d.old d.path).1
            × Ends (λ _. B) Cut (reverted d d.old d.path).0 (reverted d d.old d.path).1
      cases d p =
          rw (p.at_old, p.at_path, other_inode f g apart)
            (
              inr (record { at_path = refl; no_old = refl }),
              record { at_path = refl; no_old = refl },
            )

  missing_old-Triple : (e : IoError) → Triple (Cut e) R (missing_old e) (λ _. B) (λ _. R)
  unfolding missing_old
  missing_old-Triple not_exist = record { run = λ r p s. absurd p }
  missing_old-Triple _ = Triple-raise _ (λ d p. inl p)

  remove_pending-Keeps : Keeps B remove_pending
  unfolding remove_pending
  remove_pending-Keeps = Triple-sys _ _ (λ d p. cases d d.pending p) (λ n d p. (inr p, p))
    where
      cases :
          (d : Disk) (o : Option (List ℕ))
          → B d
          → R (removed_pending d o).1
            × Ends (λ _. B) (λ _. B) (removed_pending d o).0 (removed_pending d o).1
      cases d none p = (inr p, p)
      cases d (some x) p =
          let q : B (removed_pending d (some x)).1 = record {
            at_path = p.at_path;
            no_old = p.no_old;
          } in
          (inr q, q)

  allow_missing-Keeps : (m : Io (Unit {0})) → Keeps B m → Keeps B (allow_missing m)
  allow_missing-Keeps m k = unfold allow_missing in Triple-catch k passed
    where
      passed : (e : IoError) → Triple B R (or_missing e) (λ _. B) (λ _. B)
      passed not_exist = Triple-pure tt (λ d p. p)
      passed _ = Triple-raise _ (λ d p. p)

  late : {m : Io (Unit {0})} → Keeps B m → Triple B R m (λ _. B) (λ _. R)
  late k = Triple-weaken (λ d p. p) (λ a d p. p) (λ e d p. inr p) k

  revert-Triple : Triple F R revert (λ _. B) (λ _. R)
  unfolding revert sync_dir
  revert-Triple = Triple-bind (Triple-catch rename_old-Triple missing_old-Triple) λ _.
      Triple-bind (late (allow_missing-Keeps remove_pending remove_pending-Keeps))
        λ _. Triple-bind (late quiet-B) (λ _. late quiet-B)

  restart-Triple : (x y : List StartError) → Triple R R (restart x y) (λ _. R) (λ _. R)
  unfolding restart
  restart-Triple x [] =
      Triple-bind
        (Triple-catch (Triple-bind (Triple-quiet (λ d p. p)) (λ _. Triple-pure [] (λ d p. p)))
          (λ e. Triple-pure _ (λ d p. p)))
        (λ es. Triple-pure _ (λ d p. p))
  restart-Triple x (e ∷ es) = Triple-pure _ (λ d p. p)

  put_back-Triple : (p : Pending) → Triple F R (put_back p true) (λ _. R) (λ _. R)
  unfolding put_back
  put_back-Triple p = Triple-bind (Triple-ignore (mark_failed-Keeps p.hash)) λ _.
      Triple-bind
        (Triple-catch (Triple-bind revert-Triple (λ _. Triple-pure [] (λ d q. inr q)))
          (λ e. Triple-pure _ (λ d q. q)))
        (λ es. restart-Triple p.errors es)

  put_back-R :
      (p : Pending) (d : Disk) (later : List (Option ℕ))
      → F d
      → p.found ≡ true
      → All R
          (act_on p (record {
            disk = disk (some g) (some f) (some t) d;
            seen = disk (some g) (some f) (some t) d ∷ [];
            faults = none ∷ later;
          })).1.seen
  unfolding act_on stat_old
  put_back-R p d later h found =
      let x : F (disk (some g) (some f) (some t) d) = record {
        at_path = refl;
        at_old = refl;
        marked = refl;
      } in
      rw found (((put_back-Triple p).run _ x (inl x, (inl x, tt))).0)

  Recoverable-Restored : (d : Disk) → R d → Restored f (self_check false (started d [])).1.disk
  Recoverable-Restored d (inl p) =
      rw (same_disk d _ _ _ p.at_path p.at_old p.marked) (fresh-Restored f g t d apart)
  Recoverable-Restored d (inr p) =
      rw (same_disk d _ _ _ p.at_path p.no_old refl) (back-Restored f d.pending d)

-- Where Path.old and the marker of an install are there, and the installed file is another than the
-- previous one, a start-up check that can read both leaves, wherever a crash cuts it off and
-- whichever of its later calls fail, a disk on which the next check, if no call of it fails,
-- leaves the previous binary at the path and no marker.
pub self_check-Restored :
    (f g : File) (t : List ℕ) (d : Disk) (later : List (Option ℕ))
    → f.inode ≢ g.inode
    → Fresh f g t d
    → All
        (λ d'. Restored f (self_check false (started d' [])).1.disk)
        (self_check false (started d (none ∷ none ∷ later))).1.seen
self_check-Restored f g t d later apart h =
    All_mono (Recoverable-Restored f g t apart) _ (seen-R d h)
  where
    seen-R :
        (d : Disk)
        → Fresh f g t d
        → All (R f g t apart) (self_check false (started d (none ∷ none ∷ later))).1.seen
    seen-R d h = rw (same_disk d _ _ _ h.at_path h.at_old h.marked) (
        unfold self_check pending read_pending in
        put_back-R f g t apart (parsed (read_hash t)) d later h (parsed_found (read_hash t)))
