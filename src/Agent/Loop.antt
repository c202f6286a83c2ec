-- ===== src/Agent/Loop.antt =====
-- The update loop over any cycles: what one leaves for the next.
use go_binsync.Prelude.{
  ℕ, ◌≡◌, refl, inl, inr, true, false, Bool, Bool-cases, ◌&&◌, List, [], Option, none, some, Result,
  ok, err, panic, stuck, not, arith,
}
use go_binsync.Int64.{lt64, le64}
use go_binsync.Release.Hash.{Hash, bytes_eq, zero_hash}
use go_binsync.Release.Pointer.{Pointer, PointerError, unknown_format, parse_pointer}
use go_binsync.Release.Plan.{make_plan, PlanKind, plan_none, plan_chain, plan_blob}
use go_binsync.Release.Disk.{Io, pure, ◌>>=◌, ignore}
use go_binsync.Release.Revert.{
  failed_release, clear_failed, mark_failed, stat_old, revert, clear_pending,
}
use go_binsync.Agent.Always.{
  Always, Always-pure, Always-bind, Always-attempt, Always-ignore, Always-recover, Always-weaken,
  Always-if,
}
use go_binsync.Agent.{
  Outcome, retryable, Agent, Answer, not_modified, get_failed, object, World, Polled, poll_failed,
  not_fresh, fresh, current_hash, accept, with_body, answered, pointer, skip_known, skip, attempt,
  run_hook, revert_with, rollback, take_over, Built, built, not_built, place, on_disk, follow, act,
  decide, update, forget, cycle, healthy, read_object,
}

module _ (w : World) where
  run_hook-Always : Always (λ _. Unit) (run_hook w.restart)
  run_hook-Always = go w.restart
    where
      go : (h : Option (Io (Unit {0}))) → Always (λ _. Unit) (run_hook h)
      go none = Always-pure (λ _. Unit) true tt
      go (some m) = Always-attempt m

  revert_with-Always : (there : Bool) → Always (λ _. Unit) (revert_with w there)
  revert_with-Always false = Always-pure (λ _. Unit) Outcome.rolled_back tt
  revert_with-Always true =
      Always-bind (λ _. Unit) (λ _. Unit) (attempt revert) _ (Always-attempt revert)
        (λ reverted _.
          Always-if (λ _. Unit) reverted _ _
            (Always-bind (λ _. Unit) (λ _. Unit) (run_hook w.restart) _ run_hook-Always
              (λ _ _. Always-pure (λ _. Unit) Outcome.rolled_back tt))
            (Always-pure (λ _. Unit) Outcome.rolled_back tt))

  rollback-Always : (head : Hash) → Always (λ _. Unit) (rollback w head)
  unfolding rollback
  rollback-Always head =
      Always-bind (λ _. Unit) (λ _. Unit) (ignore (mark_failed head)) _
        (Always-ignore (mark_failed head))
        (λ _ _.
          Always-bind (λ _. Unit) (λ _. Unit) (attempt stat_old) _ (Always-attempt stat_old)
            (λ there _. revert_with-Always there))

  take_over-Always : (head : Hash) → Always (λ _. Unit) (take_over w head)
  unfolding take_over
  take_over-Always head =
      Always-bind (λ _. Unit) (λ _. Unit) (run_hook w.restart) _ run_hook-Always
        (λ started _.
          Always-if (λ _. Unit) (started && healthy w.checks) _ _
            (Always-bind (λ _. Unit) (λ _. Unit) (ignore clear_pending) _
              (Always-ignore clear_pending) (λ _ _. Always-pure (λ _. Unit) Outcome.updated tt))
            (rollback-Always head))

  place-Always : (head : Hash) (b : Built) → Always (λ _. Unit) (place w head b)
  unfolding place
  place-Always head (not_built e) = Always-pure (λ _. Unit) _ tt
  place-Always head (built content) =
      Always-if (λ _. Unit) (not (bytes_eq (w.hash_of content) head)) _ _
        (Always-pure (λ _. Unit) Outcome.verify_failed tt)
        (Always-bind (λ _. Unit) (λ _. Unit) (attempt _) _ (Always-attempt _)
          (λ installed _.
            Always-if (λ _. Unit) installed _ _ (take_over-Always head)
              (Always-pure (λ _. Unit) Outcome.error tt)))

  follow-Always : (p : Pointer) (current : Hash) → Always (λ _. Unit) (follow w p current)
  unfolding follow
  follow-Always p current =
      Always-if (λ _. Unit) (make_plan p current).at_head _ _
        (Always-pure (λ _. Unit) Outcome.at_head tt) (by_kind (make_plan p current).kind)
    where
      fetched :
          Always (λ _. Unit) (on_disk (w.build p (make_plan p current)) >>= place w p.head.hash)
      fetched =
          Always-bind (λ _. Unit) (λ _. Unit) (on_disk (w.build p (make_plan p current))) _
            (record { run = λ r. tt }) (λ b _. place-Always p.head.hash b)

      by_kind :
          (k : PlanKind)
          → Always
              (λ _. Unit)
              (elim k [
                | plan_none ↦ pure Outcome.no_path
                | _ ↦ on_disk (w.build p (make_plan p current)) >>= place w p.head.hash
              ])
      by_kind plan_none = Always-pure (λ _. Unit) Outcome.no_path tt
      by_kind plan_chain = fetched
      by_kind plan_blob = fetched

-- A later agent remembers no smaller sequence number.
abbrev pub Forward : Agent → Agent → Type 0
Forward a b = le64 a.seq b.seq ≡ true

pub Forward-refl : (a : Agent) → Forward a a
unfolding le64
Forward-refl a = ground arith

pub Forward-trans : (a b c : Agent) → Forward a b → Forward b c → Forward a c
unfolding le64
Forward-trans a b c h k = ground arith

not_older : (n m : ℕ) → lt64 n m ≡ false → le64 m n ≡ true
unfolding lt64 le64
not_older n m h = ground arith

accept-Forward :
    (a : Agent) (etag : List ℕ) (r : Result PointerError Pointer) → Forward a (accept a etag r).1
accept-Forward a etag (ok p) = elim (Bool-cases (lt64 p.seq a.seq)) [
  | inl older ↦ rw older (Forward-refl a)
  | inr newer ↦ rw newer (not_older p.seq a.seq newer)
]
accept-Forward a etag (err (unknown_format n)) = Forward-refl a
accept-Forward a etag (err PointerError.bad_json) = Forward-refl a
accept-Forward a etag (err PointerError.no_head) = Forward-refl a
accept-Forward a etag (err PointerError.bad_head_size) = Forward-refl a
accept-Forward a etag (err PointerError.incomplete_edge) = Forward-refl a
accept-Forward a etag (err PointerError.wrong_first) = Forward-refl a
accept-Forward a etag (err PointerError.broken_link) = Forward-refl a
accept-Forward a etag panic = Forward-refl a
accept-Forward a etag stuck = Forward-refl a

pointer-Forward : (w : World) (a : Agent) → Forward a (pointer w a).1
unfolding pointer
pointer-Forward w a = go (w.get a.etag)
  where
    with_raw : (etag : List ℕ) (o : Option (List ℕ)) → Forward a (with_body w a etag o).1
    with_raw etag none = Forward-refl a
    with_raw etag (some raw) = accept-Forward a etag (parse_pointer w.unmarshal raw)

    go : (x : Answer) → Forward a (answered w a x).1
    go not_modified = Forward-refl a
    go get_failed = Forward-refl a
    go (object body etag) = with_raw etag (read_object w.max body)

skip-Forward : (head : Hash) (a : Agent) → Always (λ s. Forward a s.1) (skip head a)
unfolding skip skip_known
skip-Forward head a =
    Always-bind (λ _. Unit) (λ s. Forward a s.1) failed_release _
      (unfold failed_release in Always-recover _ none) (λ f _. by_marker f)
  where
    by_marker : (f : Option Hash) → Always (λ s. Forward a s.1) (skip_known head a f)
    by_marker none = Always-pure (λ s. Forward a s.1) (false, a) (Forward-refl a)
    by_marker (some f) =
        Always-if (λ s. Forward a s.1) (bytes_eq f head) _ _
          (Always-pure (λ s. Forward a s.1) (true, record a { skipped = head }) (Forward-refl a))
          (Always-bind (λ _. Unit) (λ s. Forward a s.1) (ignore clear_failed) _
            (Always-ignore clear_failed)
            (λ _ _.
              Always-pure (λ s. Forward a s.1) (false, record a { skipped = zero_hash })
                (Forward-refl a)))

act-Forward :
    (w : World) (p : Pointer) (current : Hash) (s : Bool × Agent)
    → Always (λ x. Forward s.1 x.1) (act w p current s)
unfolding act
act-Forward w p current (true, a) =
    Always-pure (λ x. Forward a x.1) (Outcome.at_head, a) (Forward-refl a)
act-Forward w p current (false, a) =
    Always-bind (λ _. Unit) (λ x. Forward a x.1) (follow w p current) _ (follow-Always w p current)
      (λ o _. Always-pure (λ x. Forward a x.1) (o, a) (Forward-refl a))

decide-Forward :
    (w : World) (current : Hash) (x : Polled × Agent)
    → Always (λ y. Forward x.1 y.1) (decide w current x)
unfolding decide
decide-Forward w current (poll_failed, a) =
    Always-pure (λ y. Forward a y.1) (Outcome.error, a) (Forward-refl a)
decide-Forward w current (not_fresh, a) =
    Always-pure (λ y. Forward a y.1) (Outcome.at_head, a) (Forward-refl a)
decide-Forward w current (fresh p, a) =
    Always-if (λ y. Forward a y.1) (lt64 w.max p.head.size) _ _
      (Always-pure (λ y. Forward a y.1) (Outcome.error, a) (Forward-refl a))
      (Always-bind (λ s. Forward a s.1) (λ y. Forward a y.1) (skip p.head.hash a) _
        (skip-Forward p.head.hash a)
        (λ s h.
          Always-weaken _ _ (act w p current s) (λ y k. Forward-trans a s.1 y.1 h k)
            (act-Forward w p current s)))

update-Forward : (w : World) (a : Agent) → Always (λ y. Forward a y.1) (update w a)
unfolding update
update-Forward w a = by_current (current_hash w)
  where
    by_current :
        (c : Option Hash)
        → Always {A = Outcome × Agent}
            (λ y. Forward a y.1)
            (elim c [
              | none ↦ pure (Outcome.error, a)
              | some current ↦ decide w current (pointer w a)
            ])
    by_current none = Always-pure (λ y. Forward a y.1) (Outcome.error, a) (Forward-refl a)
    by_current (some current) =
        Always-weaken _ _ (decide w current (pointer w a))
          (λ y k. Forward-trans a (pointer w a).1 y.1 (pointer-Forward w a) k)
          (decide-Forward w current (pointer w a))

-- Behind a cycle.
pub record IsCycle (a : Agent) (y : Outcome × Agent) : Type 0 where
  pub forward : Forward a y.1
  pub forgets : retryable y.0 ≡ true → y.1.etag ≡ []

forget-IsCycle : (a : Agent) (y : Outcome × Agent) → Forward a y.1 → IsCycle a (forget y)
forget-IsCycle a (o, b) h = elim (Bool-cases (retryable o)) [
  | inl again ↦ rw again (record { forward = h; forgets = λ _. refl })
  | inr kept ↦ rw kept (record { forward = h; forgets = λ e. absurd cc })
]

-- Where build returns (a panic of it would end the process), and whatever else a cycle meets: it ends
-- with an outcome, and the sequence number that it remembers does not fall; and where a retry can help,
-- it forgets the ETag, so that the next cycle reads the pointer again.
pub cycle-IsCycle : (w : World) (a : Agent) → Always (IsCycle a) (cycle w a)
unfolding cycle
cycle-IsCycle w a =
    Always-bind (λ y. Forward a y.1) (IsCycle a) (update w a) _ (update-Forward w a)
      (λ y h. Always-pure (IsCycle a) (forget y) (forget-IsCycle a y h))
