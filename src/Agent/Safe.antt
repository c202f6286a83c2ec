-- ===== src/Agent/Safe.antt =====
-- What a crash in the middle of an update leaves at the path.
use go_binsync.Prelude.{
  ℕ, ◌≡◌, refl, sym, ◌∙◌, ◌⊎◌, inl, inr, true, false, Bool, ◌&&◌, not, All, All_mono, List, [],
  Option, none, some, if◌then◌else◌, if_both, ◌==◌,
}
use go_binsync.Release.Hash.{Hash, bytes_eq}
use go_binsync.Release.Disk.{
  File, Disk, IoError, Run, Reply, done, failed, Io, pure, raise, continue, handle, ◌>>=◌, ◌>>◌,
  catch, ignore, allow_missing,
}
use go_binsync.Release.Disk.Triples.{
  Ends, Triple, Triple-pure, Triple-raise, Triple-sys, Triple-bind, Triple-catch, Triple-weaken,
  Triple-ignore,
}
use go_binsync.Release.Install.{install, sync_dir, remove_pending, rename_old, reverted}
use go_binsync.Release.Install.Atomic.{Safe, Installed, install-Safe}
use go_binsync.Release.Revert.{
  stat_old, stat_pending, missing_old, revert, clear_pending, mark_failed,
}
use go_binsync.Agent.{
  Outcome, updated, error, rolled_back, World, attempt, run_hook, revert_with, rollback, healthy,
  take_over, built, place,
}
use go_binsync.Agent.Names.{
  LeavesAlone, attempt-Triple, Keeps-mark_failed, Keeps-stat_old, Keeps-stat_pending,
  Keeps-allow_missing, Keeps-remove_pending, Keeps-sync_dir, Keeps-clear_pending, Keeps-attempt,
  Keeps-alone, Keeps,
}

module _ (hash_of : List ℕ → Hash) (content : List ℕ) (head : Hash) (before : Option File) where
  -- The whole of the new content, of the hash of the head.
  pub record IsNew (path : Option File) : Type 0 where
    pub file : File
    pub at_path : path ≡ some file
    pub whole : file.content ≡ content
    pub verified : hash_of content ≡ head

  abbrev pub IsPath : Disk → Type 0
  IsPath d = (d.path ≡ before) ⊎ IsNew d.path

  -- The new binary, with the previous one beside it.
  abbrev Placed : Option File → Option File → Type 0
  Placed path old = IsNew path × (old ≡ before)

  -- Either one.
  abbrev Either : Option File → Option File → Type 0
  Either path old = (path ≡ before) ⊎ IsNew path

  -- Behind an update that was given the bytes.
  abbrev pub Ended : Outcome → Disk → Type 0
  Ended updated d = IsNew d.path
  Ended _ d = IsPath d

  Placed-IsPath : (d : Disk) → Placed d.path d.old → IsPath d
  Placed-IsPath d p = inr p.0

  KeepsPlaced : {A : Type 0} → Io A → Type 0
  KeepsPlaced m =
      Triple (λ d. Placed d.path d.old) IsPath m (λ _ d. Placed d.path d.old)
        (λ _ d. Placed d.path d.old)

  rename_old-Either :
      Triple
        (λ d. Placed d.path d.old)
        IsPath
        rename_old
        (λ _ d. Either d.path d.old)
        (λ _ d. Either d.path d.old)
  unfolding rename_old
  rename_old-Either =
      Triple-sys _ _ (λ d p. by_names d d.old d.path refl refl p) (λ n d p. (inr p.0, inr p.0))
    where
      by_names :
          (d : Disk) (o q : Option File)
          → d.old ≡ o
          → d.path ≡ q
          → Placed d.path d.old
          → IsPath (reverted d o q).1
            × Ends
                (λ _ d'. Either d'.path d'.old)
                (λ _ d'. Either d'.path d'.old)
                (reverted d o q).0
                (reverted d o q).1
      by_names d none q e e' p = (inr p.0, inr p.0)
      by_names d (some f) none e e' p =
          let back : some f ≡ before = sym e ∙ p.1 in (inl back, inl back)
      by_names d (some f) (some g) e e' p =
          let back : some f ≡ before = sym e ∙ p.1 in
          let h : IsPath
              (if f.inode == g.inode then d else record d { path = some f; old = none }) =
            if_both IsPath (f.inode == g.inode) (inr p.0) (inl back) in
          (h, h)

  Either-IsPath : (d : Disk) → Either d.path d.old → IsPath d
  Either-IsPath d p = p

  KeepsEither : {A : Type 0} → Io A → Type 0
  KeepsEither m =
      Triple (λ d. Either d.path d.old) IsPath m (λ _ d. Either d.path d.old)
        (λ _ d. Either d.path d.old)

  missing_old-KeepsEither : (e : IoError) → KeepsEither (missing_old e)
  unfolding KeepsEither
  missing_old-KeepsEither IoError.not_exist = rw missing_old_lem (
      Triple-catch (Keeps-stat_pending IsPath Either Either-IsPath)
        (λ e. Triple-raise _ (λ d p. p)))
    where
      missing_old_lem :
          missing_old IoError.not_exist ≡ catch stat_pending (λ e. raise IoError.nothing_to_revert)
      missing_old_lem = unfold missing_old in refl
  missing_old-KeepsEither IoError.call_failed = unfold missing_old in Triple-raise _ (λ d p. p)
  missing_old-KeepsEither IoError.symlink_path = unfold missing_old in Triple-raise _ (λ d p. p)
  missing_old-KeepsEither IoError.writable_path = unfold missing_old in Triple-raise _ (λ d p. p)
  missing_old-KeepsEither IoError.wrong_hash = unfold missing_old in Triple-raise _ (λ d p. p)
  missing_old-KeepsEither IoError.nothing_to_revert =
      unfold missing_old in Triple-raise _ (λ d p. p)

  revert_lem : revert ≡ (catch rename_old missing_old >> (allow_missing remove_pending >> sync_dir))
  unfolding revert
  revert_lem = refl

  revert-Either :
      Triple
        (λ d. Placed d.path d.old)
        IsPath
        revert
        (λ _ d. Either d.path d.old)
        (λ _ d. Either d.path d.old)
  revert-Either = rw revert_lem (
      Triple-bind (Triple-catch rename_old-Either (unfold KeepsEither in missing_old-KeepsEither))
        λ _.
          Triple-bind
            (Keeps-allow_missing IsPath Either Either-IsPath remove_pending
              (Keeps-remove_pending IsPath Either Either-IsPath))
            λ _. Keeps-sync_dir IsPath Either Either-IsPath)

  module _ (w : World) (alone : (m : Io (Unit {0})) → w.restart ≡ some m → LeavesAlone m) where
    run_hook-Keeps :
        (R : Option File → Option File → Type 0)
        → (holds : (d : Disk) → R d.path d.old → IsPath d)
        → Keeps IsPath R holds (run_hook w.restart)
    run_hook-Keeps R holds = by_hook w.restart alone
      where
        by_hook :
            (h : Option (Io (Unit {0})))
            → ((m : Io (Unit {0})) → h ≡ some m → LeavesAlone m)
            → Keeps IsPath R holds (run_hook h)
        by_hook none k = Triple-pure true (λ d p. p)
        by_hook (some m) k =
            Keeps-attempt IsPath R holds m (Keeps-alone IsPath R holds m (k m refl))

    abbrev Finishes : Io Outcome → Type 0
    Finishes m = Triple (λ d. Placed d.path d.old) IsPath m Ended (λ _. IsPath)

    rolled :
        {P : Disk → Type 0}
        → ((d : Disk) → P d → IsPath d)
        → Triple P IsPath (pure rolled_back) Ended (λ _. IsPath)
    rolled h = Triple-pure rolled_back h

    revert_with-Finishes : (there : Bool) → Finishes (revert_with w there)
    revert_with-Finishes false = rolled Placed-IsPath
    revert_with-Finishes true =
        Triple-bind (attempt-Triple revert revert-Either) λ reverted. by_revert reverted
      where
        by_revert :
            (b : Bool)
            → Triple
                (λ d. Either d.path d.old)
                IsPath
                (if b then (run_hook w.restart >>= λ _. pure rolled_back) else pure rolled_back)
                Ended
                (λ _. IsPath)
        by_revert true = Triple-bind (run_hook-Keeps Either Either-IsPath) λ _. rolled Either-IsPath
        by_revert false = rolled Either-IsPath

    rollback_lem :
        (h : Hash) → rollback w h ≡ (ignore (mark_failed h) >> (attempt stat_old >>= revert_with w))
    unfolding rollback
    rollback_lem h = refl

    rollback-Finishes : (h : Hash) → Finishes (rollback w h)
    rollback-Finishes h = rw (rollback_lem h) (
        Triple-bind (Triple-ignore (Keeps-mark_failed IsPath Placed Placed-IsPath h)) λ _.
          Triple-bind (attempt-Triple stat_old (Keeps-stat_old IsPath Placed Placed-IsPath))
            revert_with-Finishes)

    take_over_lem :
        (h : Hash)
        → take_over w h ≡ (
            run_hook w.restart >>= λ started.
            if started && healthy w.checks
            then (ignore clear_pending >> pure updated)
            else rollback w h)
    unfolding take_over
    take_over_lem h = refl

    take_over-Finishes : (h : Hash) → Finishes (take_over w h)
    take_over-Finishes h = rw (take_over_lem h) (
        Triple-bind
          (Triple-weaken (λ d p. p) (λ a d p. p) (λ e d p. inr p.0)
            (run_hook-Keeps Placed Placed-IsPath))
          λ started.
            if_both (λ m. Finishes m) (started && healthy w.checks)
              (Triple-bind (Triple-ignore (Keeps-clear_pending IsPath Placed Placed-IsPath))
                λ _. Triple-pure updated (λ d p. p.0))
              (rollback-Finishes h))

module _ (w : World) (alone : (m : Io (Unit {0})) → w.restart ≡ some m → LeavesAlone m)
    (content : List ℕ) (head : Hash) (d : Disk) (faults : List (Option ℕ)) where
  abbrev start : Run
  start = record { disk = d; seen = []; faults = faults }

  abbrev Sound : Reply Outcome × Run → Type 0
  Sound r =
      All (IsPath w.hash_of content head d.path) r.1.seen
      × Ends (Ended w.hash_of content head d.path) (λ _. IsPath w.hash_of content head d.path) r.0
          r.1.disk

  -- Install has come back with `x`.
  installed : Reply (Unit {0}) × Run → Reply Outcome × Run
  installed (done a, r) = take_over w head r
  installed (failed e, r) = (done error, r)

  Safe-IsPath :
      (d' : Disk) → Safe w.hash_of content head d.path d' → IsPath w.hash_of content head d.path d'
  Safe-IsPath d' (inl kept) = inl kept
  Safe-IsPath d' (inr i) =
      inr (record { file = i.file; at_path = i.at_path; whole = i.whole; verified = i.verified })

  installed-Sound :
      (x : Reply (Unit {0}) × Run)
      → All (Safe w.hash_of content head d.path) x.1.seen
        × Ends
            (λ _. Installed w.hash_of content head d.path)
            (λ _. Safe w.hash_of content head d.path)
            x.0
            x.1.disk
      → Sound (installed x)
  unfolding installed
  installed-Sound (done a, r) (seen, i) =
      (take_over-Finishes w.hash_of content head d.path w alone head).run r
        (
          record { file = i.file; at_path = i.at_path; whole = i.whole; verified = i.verified },
          i.kept_old,
        )
        (All_mono Safe-IsPath r.seen seen)
  installed-Sound (failed e, r) (seen, s) = (All_mono Safe-IsPath r.seen seen, Safe-IsPath r.disk s)

  attempted :
      (attempt (install w.hash_of content head) >>= λ there.
      if there then take_over w head else pure error)
        start
      ≡ installed (install w.hash_of content head start)
  unfolding attempt catch ◌>>=◌ installed
  attempted = by_reply (install w.hash_of content head start)
    where
      by_reply :
          (x : Reply (Unit {0}) × Run)
          → (let y = continue x.0 (λ _. pure true) x.1 in
              let z = handle y.0 (λ e. pure false) y.1 in
              continue z.0 (λ there. if there then take_over w head else pure error) z.1)
            ≡ installed x
      by_reply (done a, r) = refl
      by_reply (failed e, r) = refl

  -- Once the bytes of a release are in hand, and where the restart hook touches none of the names:
  -- whatever fails and wherever a crash cuts in, the path has the file that was there before, or the
  -- whole of those bytes, and then they have the hash of the head. The latter holds where the cycle
  -- ends as updated.
  pub place-Sound : Sound (place w head (built content) start)
  unfolding place
  place-Sound =
      if_both {A = Io Outcome} (λ m. Sound (m start)) (not (bytes_eq (w.hash_of content) head))
        (tt, inl refl)
        (rw attempted (
          installed-Sound (install w.hash_of content head start)
            (install-Safe w.hash_of content head d faults)))
