-- ===== src/Release/Install/Atomic.antt =====
-- Whatever calls fail and wherever Install is cut off, the path holds the previous binary or the
-- whole of the new one.
use go_binsync.Prelude.{
  ℕ, ◌≡◌, refl, sym, ◌∙◌, false, List, [], Option, none, some, ◌⊎◌, inl, inr, All, Bool-cases,
}
use go_binsync.Release.Hash.{Hash, bytes_eq, to_string}
use go_binsync.Release.Hash.RoundTrip.{bytes_eq_iff}
use go_binsync.Release.Disk.{
  File, Disk, IoError, Io, quiet, ignore, raise, ◌>>◌, allow_missing, or_missing, not_exist,
}
use go_binsync.Release.Disk.Triples.{
  Ends, Triple, Triple-pure, Triple-raise, Triple-sys, Triple-bind, Triple-catch, Triple-weaken,
  Triple-quiet, Triple-ignore, Triple-cleanup, Ends-both,
}
use go_binsync.Release.Install.{
  create_temp, remove_temp, write_temp, open_pending, write_pending, remove_pending, remove_old,
  link_old, rename_temp, inspect, inspected, check, write_exec, compare_hash, stage, link_previous,
  mark_pending, sync_dir, install, removed_old, linked, removed_pending, renamed,
}

some_content : (a b : List ℕ) → some a ≡ some b → a ≡ b
some_content a b h = cc

module _ (hash_of : List ℕ → Hash) (content : List ℕ) (want : Hash) (before : Option File) where
  -- Before the rename, step by step.
  abbrev Kept : Disk → Type 0
  Kept d = d.path ≡ before

  abbrev Staged : Disk → Type 0
  Staged d = Kept d × (d.tmp ≡ some content) × (hash_of content ≡ want)

  abbrev Linked : Disk → Type 0
  Linked d = Kept d × (d.tmp ≡ some content) × (hash_of content ≡ want) × (d.old ≡ before)

  abbrev Marked : Disk → Type 0
  Marked d =
      Kept d
      × (d.tmp ≡ some content)
      × (hash_of content ≡ want)
      × (d.old ≡ before)
      × (d.pending ≡ some (to_string want))

  -- Behind the rename: the new binary, whole and of the hash wanted, with the marker and the
  -- previous binary beside it.
  pub record Installed (d : Disk) : Type 0 where
    pub file : File
    pub at_path : d.path ≡ some file
    pub whole : file.content ≡ content
    pub verified : hash_of content ≡ want
    pub kept_old : d.old ≡ before
    pub marked : d.pending ≡ some (to_string want)

  abbrev pub Safe : Disk → Type 0
  Safe d = (d.path ≡ before) ⊎ Installed d

  abbrev Step : (Disk → Type 0) → Io (Unit {0}) → (Disk → Type 0) → Type 0
  Step P m Q = Triple P Safe m (λ _. Q) (λ _. Kept)

  check-Step : Step Kept check Kept
  unfolding check inspect
  check-Step =
      Triple-bind
        (Triple-sys _ _ (λ d p. (inl p, Ends-both Kept (inspected d.path) d p))
          (λ n d p. (inl p, p)))
        (λ _. Triple-quiet (λ d p. inl p))

  create_temp-Step : Step Kept create_temp Kept
  unfolding create_temp
  create_temp-Step = Triple-sys _ _ (λ d p. (inl p, p)) (λ n d p. (inl p, p))

  remove_temp-Step : Step Kept remove_temp Kept
  unfolding remove_temp
  remove_temp-Step = Triple-sys _ _ (λ d p. (inl p, p)) (λ n d p. (inl p, p))

  abbrev Written : Disk → Type 0
  Written d = Kept d × (d.tmp ≡ some content)

  quiet-Written : Step Written quiet Written
  quiet-Written =
      Triple-weaken (λ d p. p) (λ a d p. p) (λ e d p. p.0) (Triple-quiet (λ d p. inl p.0))

  write_exec-Step : Step Kept (write_exec content) Written
  unfolding write_exec write_temp
  write_exec-Step =
      Triple-bind
        (Triple-cleanup
          (Triple-bind (Triple-sys _ _ (λ d p. (inl p, (p, refl))) (λ n d p. (inl p, p)))
            (λ _. Triple-bind quiet-Written (λ _. quiet-Written)))
          (Triple-quiet (λ d p. inl p)))
        (λ _. quiet-Written)

  compare_hash-Step : Step Written (compare_hash hash_of content want) Staged
  unfolding compare_hash
  compare_hash-Step = elim (Bool-cases (bytes_eq (hash_of content) want)) [
    | inl same ↦
        rw same (Triple-pure tt (λ d p. (p.0, p.1, (bytes_eq_iff (hash_of content) want).0 same)))
    | inr other ↦ rw other (Triple-raise _ (λ d p. p.0))
  ]

  stage-Step : Step Kept (stage hash_of content want) Staged
  unfolding stage
  stage-Step = Triple-bind check-Step λ _.
      Triple-bind create_temp-Step
        λ _. Triple-cleanup (Triple-bind write_exec-Step (λ _. compare_hash-Step)) remove_temp-Step

  -- The old name gone, whether it was there or not.
  abbrev Unlinked : Disk → Type 0
  Unlinked d = Kept d × (d.tmp ≡ some content) × (hash_of content ≡ want) × (d.old ≡ none)

  -- What a call of Remove or Link knows where it fails.
  abbrev Missing : (Disk → Type 0) → IoError → Disk → Type 0
  Missing Q not_exist d = Q d
  Missing Q _ d = Kept d

  allow_missing-Step :
      (P Q : Disk → Type 0) (m : Io (Unit {0}))
      → Triple P Safe m (λ _. Q) (Missing Q)
      → Step P (allow_missing m) Q
  allow_missing-Step P Q m t = unfold allow_missing in Triple-catch t passed
    where
      passed : (e : IoError) → Triple (Missing Q e) Safe (or_missing e) (λ _. Q) (λ _. Kept)
      passed not_exist = Triple-pure tt (λ d q. q)
      passed _ = Triple-raise _ (λ d q. q)

  remove_old-Step : Step Staged (allow_missing remove_old) Unlinked
  remove_old-Step =
      allow_missing-Step Staged Unlinked remove_old (
        unfold remove_old in Triple-sys _ _ (λ d p. cases d d.old refl p) (λ n d p. (inl p.0, p.0)))
    where
      cases :
          (d : Disk) (o : Option File)
          → d.old ≡ o
          → Staged d
          → Safe (removed_old d o).1
            × Ends (λ _. Unlinked) (Missing Unlinked) (removed_old d o).0 (removed_old d o).1
      cases d none e p = (inl p.0, (p.0, p.1, p.2, e))
      cases d (some f) e p = (inl p.0, (p.0, p.1, p.2, refl))

  link_old-Step : Step Unlinked (allow_missing link_old) Linked
  link_old-Step =
      allow_missing-Step Unlinked Linked link_old
        (unfold link_old in Triple-sys _ _ (λ d p. cases d d.path refl p) (λ n d p. (inl p.0, p.0)))
    where
      cases :
          (d : Disk) (o : Option File)
          → d.path ≡ o
          → Unlinked d
          → Safe (linked d o).1 × Ends (λ _. Linked) (Missing Linked) (linked d o).0 (linked d o).1
      cases d none e p = (inl p.0, (p.0, p.1, p.2, p.3 ∙ sym e ∙ p.0))
      cases d (some f) e p = (inl p.0, (p.0, p.1, p.2, sym e ∙ p.0))

  link_previous-Step : Step Staged link_previous Linked
  unfolding link_previous
  link_previous-Step = Triple-bind remove_old-Step (λ _. link_old-Step)

  quiet-Marked : Step Marked quiet Marked
  quiet-Marked =
      Triple-weaken (λ d p. p) (λ a d p. p) (λ e d p. p.0) (Triple-quiet (λ d p. inl p.0))

  mark_pending-Step : Step Linked (mark_pending want) Marked
  unfolding mark_pending open_pending write_pending
  mark_pending-Step =
      Triple-bind {Mid = λ _. Linked}
        (Triple-sys _ _ (λ d p. (inl p.0, p)) (λ n d p. (inl p.0, p.0)))
        λ _.
          Triple-bind
            (Triple-cleanup
              (Triple-bind
                (Triple-sys _ _ (λ d p. (inl p.0, (p.0, p.1, p.2, p.3, refl)))
                  (λ n d p. (inl p.0, p.0)))
                (λ _. quiet-Marked))
              (Triple-quiet (λ d p. inl p)))
            (λ _. quiet-Marked)

  remove_pending-Step : Step Kept remove_pending Kept
  unfolding remove_pending
  remove_pending-Step = Triple-sys _ _ (λ d p. cases d d.pending p) (λ n d p. (inl p, p))
    where
      cases :
          (d : Disk) (o : Option (List ℕ))
          → Kept d
          → Safe (removed_pending d o).1
            × Ends (λ _. Kept) (λ _. Kept) (removed_pending d o).0 (removed_pending d o).1
      cases d none p = (inl p, p)
      cases d (some t) p = (inl p, p)

  rename_temp-Step : Step Marked rename_temp Installed
  unfolding rename_temp
  rename_temp-Step = Triple-sys _ _ (λ d p. cases d d.tmp refl p) (λ n d p. (inl p.0, p.0))
    where
      cases :
          (d : Disk) (o : Option (List ℕ))
          → d.tmp ≡ o
          → Marked d
          → Safe (renamed d o).1 × Ends (λ _. Installed) (λ _. Kept) (renamed d o).0 (renamed d o).1
      cases d none e p = (inl p.0, p.0)
      cases d (some c) e p =
          let i : Installed (renamed d (some c)).1 = record {
            file = record {
              inode = d.next_inode;
              content = c;
              symlink = false;
              world_writable = false;
            };
            at_path = refl;
            whole = some_content c content (sym e ∙ p.1);
            verified = p.2;
            kept_old = p.3;
            marked = p.4;
          } in
          (inr i, i)

  sync_dir-Triple : Triple Installed Safe sync_dir (λ _. Installed) (λ _. Safe)
  unfolding sync_dir
  sync_dir-Triple = Triple-bind synced (λ _. synced)
    where
      synced : Triple Installed Safe quiet (λ _. Installed) (λ _. Safe)
      synced = Triple-weaken (λ d p. p) (λ a d p. p) (λ e d p. inr p) (Triple-quiet (λ d p. inr p))

  -- A step that fails leaves the previous binary.
  safe :
      {P Q : Disk → Type 0} {m : Io (Unit {0})} → Step P m Q → Triple P Safe m (λ _. Q) (λ _. Safe)
  safe t = Triple-weaken (λ d p. p) (λ a d p. p) (λ e d p. inl p) t

  install-Triple : Triple Kept Safe (install hash_of content want) (λ _. Installed) (λ _. Safe)
  unfolding install
  install-Triple = Triple-bind (safe stage-Step) λ _.
      Triple-bind (safe (Triple-cleanup link_previous-Step remove_temp-Step)) λ _.
        Triple-bind (safe (Triple-cleanup mark_pending-Step remove_temp-Step))
          λ _. Triple-bind (safe (Triple-catch rename_temp-Step undo)) (λ _. sync_dir-Triple)
    where
      undo :
          (e : IoError)
          → Step Kept (ignore remove_temp >> (ignore remove_pending >> raise e)) Installed
      undo e =
          Triple-bind (Triple-ignore remove_temp-Step)
            λ _. Triple-bind (Triple-ignore remove_pending-Step) λ _. Triple-raise e (λ d q. q)

-- Install from any disk, whatever its calls do: each disk that it passes through, and so each that
-- a crash leaves, has at the path the file that was there before, or the whole of the new content,
-- which then has the hash wanted, with the previous file as Path.old and the marker of that hash as
-- Path.pending. The latter holds where Install succeeds.
pub install-Safe :
    (hash_of : List ℕ → Hash) (content : List ℕ) (want : Hash) (d : Disk) (faults : List (Option ℕ))
    → let r = install hash_of content want (record { disk = d; seen = []; faults = faults }) in
      All (Safe hash_of content want d.path) r.1.seen
      × Ends
          (λ _. Installed hash_of content want d.path)
          (λ _. Safe hash_of content want d.path)
          r.0
          r.1.disk
install-Safe hash_of content want d faults =
    (install-Triple hash_of content want d.path).run
      (record { disk = d; seen = []; faults = faults }) refl tt
