-- ===== src/Agent/Older.antt =====
-- A pointer that is older than the last one is not acted on.
use go_binsync.Prelude.{
  ℕ, ◌≡◌, refl, ap, ◌∙◌, true, false, List, Option, none, some, ok, length, ltb,
}
use go_binsync.Int64.{lt64}
use go_binsync.Release.Hash.{Hash}
use go_binsync.Release.Pointer.{Pointer, parse_pointer}
use go_binsync.Release.Disk.{Run, done, Io, pure, continue, ◌>>=◌}
use go_binsync.Agent.{
  Outcome, retryable, Agent, World, object, not_fresh, current_hash, pointer, decide, update,
  forget, cycle,
}

module _ (w : World) (a : Agent) (current : Hash) (raw etag : List ℕ) (p : Pointer) (r : Run)
    (on_path : current_hash w ≡ some current) (got : w.get a.etag ≡ object (some raw) etag)
    (fits : ltb w.max (length raw) ≡ false) (parsed : parse_pointer w.unmarshal raw ≡ ok p)
    (older : lt64 p.seq a.seq ≡ true) where
  polled : pointer w a ≡ (not_fresh, record a { etag = etag })
  unfolding pointer
  polled = rw (got, fits, parsed, older) refl

  by_current : Option Hash → Io (Outcome × Agent)
  by_current none = pure (Outcome.error, a)
  by_current (some c) = decide w c (pointer w a)

  decided : update w a ≡ decide w current (not_fresh, record a { etag = etag })
  unfolding update by_current
  decided = ap by_current on_path ∙ ap (decide w current) polled

  -- Where the file at Path has been read, and the store answers with a pointer of at most MaxSize bytes
  -- that ParsePointer accepts and whose sequence number is below the remembered one: a cycle calls
  -- nothing, so that the disk stays as it is whatever would have failed, ends as one that has nothing to
  -- do, and remembers the ETag beside the old sequence number.
  pub cycle-ignores : cycle w a r ≡ (done (Outcome.at_head, record a { etag = etag }), r)
  unfolding cycle retryable decide ◌>>=◌
  cycle-ignores =
      ap (λ (m : Io (Outcome × Agent)). let x = m r in continue x.0 (λ y. pure (forget y)) x.1)
        decided
