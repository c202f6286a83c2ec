-- ===== src/Agent.antt =====
-- agent/agent.go: the update loop. An error that a function returns beside its outcome is only
-- logged, and left out. The hooks, the store and the hash cache are parameters.
pub mod Fetch
pub mod Frames
pub mod Always
pub mod Loop
pub mod Waits
pub mod Older
pub mod Names
pub mod Safe
use go_binsync.Prelude.{
  ℕ, zero, suc, ◌+◌, ◌*◌, ◌^◌, Bool, true, false, ◌&&◌, ◌||◌, not, min, List, [], ◌∷◌, Option, none,
  some, Result, ok, err, length, ltb, ◌==◌, if◌then◌else◌,
}
use go_binsync.Int64.{lt64}
use go_binsync.Release.Hash.{Hash, bytes_eq, zero_hash}
use go_binsync.Release.Pointer.{Head, Pointer, PointerError, unknown_format, parse_pointer}
use go_binsync.Release.Plan.{Plan, PlanKind, plan_none, make_plan}
use go_binsync.Release.Disk.{
  Disk, IoError, not_exist, Reply, done, failed, Io, pure, raise, ◌>>=◌, ◌>>◌, catch, ignore,
}
use go_binsync.Release.Install.{install}
use go_binsync.Release.Revert.{
  stat_old, revert, clear_pending, mark_failed, clear_failed, failed_release,
}
use go_binsync.Agent.Fetch.{FetchError, verify}

pub data Outcome : Type 0 where
  at_head updated error verify_failed no_path rolled_back : Outcome

unfoldable pub exit_code : Outcome → ℕ
exit_code at_head = 0
exit_code updated = 0
exit_code verify_failed = 3
exit_code no_path = 4
exit_code rolled_back = 5
exit_code error = 1

unfoldable pub retryable : Outcome → Bool
retryable error = true
retryable verify_failed = true
retryable _ = false

-- With the outcome that build has where the pointer has no blob.
unfoldable pub outcome_for : FetchError → Outcome
outcome_for verify = verify_failed
outcome_for Fetch.no_blob = no_path
outcome_for _ = error

-- What the agent remembers between its cycles.
pub record Agent : Type 0 where
  pub etag : List ℕ
  pub seq : ℕ
  pub skipped : Hash

-- The answer to the conditional Get of latest.json: a body that may fail to be read, with its ETag.
pub data Answer : Type 0 where
  not_modified get_failed : Answer
  object : Option (List ℕ) → List ℕ → Answer

-- One attempt of Check: whether it passed, and whether there is time for another.
pub record Attempt : Type 0 where
  pub passed : Bool
  pub in_time : Bool

-- What build returns.
pub data Built : Type 0 where
  built : List ℕ → Built
  not_built : FetchError → Built

-- What one cycle meets. `checks` is none for a nil Check, and the same for `restart`.
pub record World : Type 0 where
  pub max : ℕ
  pub hash_of : List ℕ → Hash
  pub unmarshal : List ℕ → Option Pointer
  pub cached_hash : Reply Hash
  pub get : List ℕ → Answer
  pub build : Pointer → Plan → Disk → Built
  pub restart : Option (Io (Unit {0}))
  pub checks : Option (List Attempt)

-- The zero hash for a path that does not exist yet.
unfoldable pub current_hash : World → Option Hash
current_hash w = elim w.cached_hash [
  | done h ↦ some h
  | failed not_exist ↦ some zero_hash
  | failed _ ↦ none
]

-- `fresh` is false where there is nothing to act on.
pub data Polled : Type 0 where
  poll_failed not_fresh : Polled
  fresh : Pointer → Polled

-- readObject: nothing longer than `max`.
unfoldable pub read_object : ℕ → Option (List ℕ) → Option (List ℕ)
read_object max none = none
read_object max (some b) = if ltb max (length b) then none else some b

abbrev pub accept : Agent → List ℕ → Result PointerError Pointer → Polled × Agent
accept a etag (err (unknown_format n)) = (not_fresh, record a { etag = etag })
accept a etag (ok p) =
    if lt64 p.seq a.seq
    then (not_fresh, record a { etag = etag })
    else (fresh (record p { etag = etag }), record a { etag = etag; seq = p.seq })
accept a etag _ = (poll_failed, a)

abbrev pub with_body : World → Agent → List ℕ → Option (List ℕ) → Polled × Agent
with_body w a etag none = (poll_failed, a)
with_body w a etag (some raw) = accept a etag (parse_pointer w.unmarshal raw)

abbrev pub answered : World → Agent → Answer → Polled × Agent
answered w a not_modified = (not_fresh, a)
answered w a get_failed = (poll_failed, a)
answered w a (object body etag) = with_body w a etag (read_object w.max body)

unfoldable pub pointer : World → Agent → Polled × Agent
unfolding read_object
pointer w a = answered w a (w.get a.etag)

-- Behind the look at the failed marker.
unfoldable pub skip_known : Hash → Agent → Option Hash → Io (Bool × Agent)
unfolding clear_failed ignore ◌>>=◌
skip_known head a none = pure (false, a)
skip_known head a (some f) =
    if bytes_eq f head
    then pure (true, record a { skipped = head })
    else (do ignore clear_failed; pure (false, record a { skipped = zero_hash }))

unfoldable pub skip : Hash → Agent → Io (Bool × Agent)
unfolding failed_release skip_known ◌>>=◌
skip head a = do f ← failed_release; skip_known head a f

-- Whether a call succeeded.
unfoldable pub attempt : Io (Unit {0}) → Io Bool
unfolding catch ◌>>=◌
attempt m = catch (m >>= λ _. pure true) (λ e. pure false)

abbrev pub run_hook : Option (Io (Unit {0})) → Io Bool
run_hook none = pure true
run_hook (some h) = attempt h

-- The attempts end with one for which there is no time.
unfoldable pub healthy_loop : List Attempt → Bool
healthy_loop [] = false
healthy_loop (t ∷ rest) =
    let more = healthy_loop rest in if t.passed then true else if t.in_time then more else false

unfoldable pub healthy : Option (List Attempt) → Bool
unfolding healthy_loop
healthy none = true
healthy (some ts) = healthy_loop ts

abbrev pub revert_with : World → Bool → Io Outcome
revert_with w false = pure rolled_back
revert_with w true = do
  reverted ← attempt revert
  if reverted then (do _ ← run_hook w.restart; pure rolled_back) else pure rolled_back

unfoldable pub rollback : World → Hash → Io Outcome
unfolding mark_failed stat_old revert attempt ignore ◌>>=◌
rollback w head = do ignore (mark_failed head); there ← attempt stat_old; revert_with w there

-- Behind Install.
unfoldable pub take_over : World → Hash → Io Outcome
unfolding attempt rollback clear_pending healthy ignore ◌>>=◌
take_over w head = do
  started ← run_hook w.restart
  if started && healthy w.checks then (do ignore clear_pending; pure updated) else rollback w head

-- The release is in hand: the last check, and Install.
unfoldable pub place : World → Hash → Built → Io Outcome
unfolding attempt take_over outcome_for ◌>>=◌
place w head (not_built e) = pure (outcome_for e)
place w head (built content) =
    if not (bytes_eq (w.hash_of content) head) then pure verify_failed else (do
      installed ← attempt (install w.hash_of content head)
      if installed then take_over w head else pure error)

-- What is read of the disk.
abbrev pub on_disk : {A : Type 0} → (Disk → A) → Io A
on_disk f r = (done (f r.disk), r)

unfoldable pub follow : World → Pointer → Hash → Io Outcome
unfolding make_plan place ◌>>=◌
follow w p current =
    let plan = make_plan p current in
    if plan.at_head then pure at_head else elim plan.kind [
      | plan_none ↦ pure no_path
      | _ ↦ (do made ← on_disk (w.build p plan); place w p.head.hash made)
    ]

unfoldable pub act : World → Pointer → Hash → Bool × Agent → Io (Outcome × Agent)
unfolding follow ◌>>=◌
act w p current (true, a) = pure (at_head, a)
act w p current (false, a) = do o ← follow w p current; pure (o, a)

unfoldable pub decide : World → Hash → Polled × Agent → Io (Outcome × Agent)
unfolding skip act ◌>>=◌
decide w current (poll_failed, a) = pure (error, a)
decide w current (not_fresh, a) = pure (at_head, a)
decide w current (fresh p, a) =
    if lt64 w.max p.head.size
    then pure (error, a)
    else (do s ← skip p.head.hash a; act w p current s)

unfoldable pub update : World → Agent → Io (Outcome × Agent)
unfolding current_hash pointer decide
update w a = elim (current_hash w) [
  | none ↦ pure (error, a)
  | some current ↦ decide w current (pointer w a)
]

abbrev pub forget : Outcome × Agent → Outcome × Agent
forget (o, a) = if retryable o then (o, record a { etag = [] }) else (o, a)

-- One poll, plan, fetch, install, restart and check.
unfoldable pub cycle : World → Agent → Io (Outcome × Agent)
unfolding update retryable ◌>>=◌
cycle w a = do r ← update w a; pure (forget r)

-- `for i := 0; i < fails && wait < maxPoll; i++`
unfoldable pub double_loop : ℕ → ℕ → ℕ → ℕ
double_loop zero max_poll wait = wait
double_loop (suc n) max_poll wait =
    let more = double_loop n max_poll (wait * 2) in if ltb wait max_poll then more else wait

-- How long run sleeps behind a cycle: `fails` cycles in a row failed.
unfoldable pub wait_for : ℕ → ℕ → ℕ → ℕ
unfolding double_loop
wait_for poll max_poll fails = min (double_loop fails max_poll poll) max_poll

abbrev pub fails_after : ℕ → Outcome → ℕ
fails_after fails o = if retryable o then fails + 1 else 0

-- In nanoseconds, as time.Duration has it.
abbrev pub max_poll : ℕ
max_poll = 5 * 60 * 10 ^ 9

-- run, until ctx ends behind the last of the cycles: how long each sleep is.
unfoldable pub run : ℕ → List World → ℕ → Agent → Io (List ℕ × Agent)
unfolding cycle wait_for retryable ◌>>=◌
run poll [] fails a = pure ([], a)
run poll (w ∷ ws) fails a = do
  (o, b) ← cycle w a
  (waits, c) ← run poll ws (fails_after fails o) b
  pure (wait_for poll max_poll (fails_after fails o) ∷ waits, c)
