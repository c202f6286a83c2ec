-- ===== src/Delta/Plain/RoundTrip.antt =====
-- plainPatch makes the new file of what plainDiff writes of it.
pub mod Triple
pub mod Sending
pub mod Packing
pub mod Panics
use go_binsync.Prelude.{
  ℕ, zero, suc, ◌+◌, ◌-◌, ◌*◌, ◌^◌, ◌≤◌, ◌<◌, ◌≡◌, refl, sym, ap, ◌∙◌, true, false, List, [], ◌∷◌,
  ◌++◌, Result, ok, ◌>>=◌, length, take, slice, ltb, ◌==◌, ==_iff, if◌then◌else◌, inl, inr,
  Bool-cases, if_both, length-append, append_assoc, append-nil, take-length_le, arith,
}
use mathlib.Core.Path.{subst}
use go_binsync.Varint.{put_uvarint}
use go_binsync.Delta.Buf
use go_binsync.Delta.Buf.{reading}
use go_binsync.Delta.Buf.Put
use go_binsync.Delta.Buf.Laws.{un-put, take_bytes-append}
use go_binsync.Delta.Correct.RoundTrip.Bounds.{length-put_uvarint}
use go_binsync.Delta.Errors.{Error}
use go_binsync.Delta.Lz.Match.{Index, new_index, set_probe}
use go_binsync.Delta.Plain.Runs
use go_binsync.Delta.Plain.Runs.{DiffWriter, new_diff_reader, advance, write_loop, write}
use go_binsync.Delta.Plain.Runs.Steps.{AreBytes, before, Later, nothing-Later}
use go_binsync.Delta.Plain.Encode.{
  Diff, put_triple, emits, round, diff_loop, pack_plain, packed_diff, new_diff, plain_probe,
  plain_diff,
}
use go_binsync.Delta.Plain.Encode.Bounds.{Fits}
use go_binsync.Delta.Plain.Encode.Rounds.{
  IsDiff, scanned, arrived, lengths, arrived-Fits, arrived_bounds, new_diff-IsDiff, IsLoop,
  diff_loop-IsLoop,
}
use go_binsync.Delta.Plain.Patch.{Progress, triples, finish, plain_patch}
use go_binsync.Delta.Lz.RoundTrip.{src-new_index}
use Triple.{ahead}
use Sending.{Sent, no_runs, put_triple-Sent}
use Packing.{pack_plain_lem, length-packed_le, plain_patch-packed, finish-ahead}

module _ (old new : List ℕ) (small : length new < 2 ^ 56) (old_small : length old < 2 ^ 32)
    (bo : AreBytes old) (bn : AreBytes new) where
  plain_patch-packed_diff :
      (s : Diff)
      → Sent old new s
      → s.last_scan ≡ length new
      → s.count ≤ length new + 1
      → plain_patch old (packed_diff s) (length new) ≡ ok new
  unfolding triples
  plain_patch-packed_diff s sent end_of counted =
      ap (λ t. plain_patch old t (length new)) (pack_plain_lem s.count s.ctrl s.diff.w s.extra)
      ∙ plain_patch-packed old (length new) s.count s.ctrl s.diff.w s.extra (omega arith)
          sent.count_le (omega (arith, sent.ctrl_le)) (omega (arith, sent.diff_le, sent.logical_le))
          (omega (arith, sent.extra_le))
      ∙ ap (λ r. r >>= finish (length new)) replayed
      ∙ ap (λ t. finish (length new) (ahead (length new) s.diff [] [] [] s.last_pos t)) all_new
      ∙ finish-ahead s.diff s.last_pos new
    where
      all_new : take s.last_scan new ≡ new
      all_new = take-length_le s.last_scan new (omega arith)

      replayed :
          triples s.count old (length new) (ahead (length new) no_runs s.ctrl s.diff.w s.extra 0 [])
          ≡ ok (ahead (length new) s.diff [] [] [] s.last_pos (take s.last_scan new))
      replayed =
          let r =
            sent.replays 0 [] [] []
              (nothing-Later (length new) s.diff.logical s.diff.last_end
                (omega (arith, sent.logical_le)))
              (omega arith) in
          let n : s.count + 0 ≡ s.count = omega arith in
          rw (n, append-nil s.ctrl, append-nil s.diff.w, append-nil s.extra) at r

  new_diff-Sent : (scan : ℕ) → Sent old new (record new_diff { scan = scan })
  new_diff-Sent scan = record {
    base_le = omega arith;
    logical_le = omega arith;
    count_le = omega arith;
    ctrl_le = omega arith;
    diff_le = omega arith;
    extra_le = omega arith;
    later = λ rest h. h;
    replays = λ k c d x h le. let n : 0 + k ≡ k = omega arith in rw n refl;
  }

-- The loop returns a state in which the whole of the new file is sent.
record Whole (ix : Index) (old new : List ℕ) : Type 0 where
  last : Diff
  returns : diff_loop (length new + 2) ix old new new_diff ≡ ok last
  sent : Sent old new last
  at_end : last.last_scan ≡ length new
  counted : last.count ≤ length new + 1

module _ (ix : Index) (new : List ℕ) (small : length new < 2 ^ 56)
    (old_small : length ix.src < 2 ^ 32) (bo : AreBytes ix.src) (bn : AreBytes new) where
  arrived-Sent : (s : Diff) → Sent ix.src new s → Sent ix.src new (arrived ix new s)
  arrived-Sent s sent = record {
    base_le = sent.base_le;
    logical_le = sent.logical_le;
    count_le = sent.count_le;
    ctrl_le = sent.ctrl_le;
    diff_le = sent.diff_le;
    extra_le = sent.extra_le;
    later = sent.later;
    replays = sent.replays;
  }

  round-Sent :
      (s : Diff)
      → IsDiff ix.src new s
      → s.scan < length new
      → Sent ix.src new s
      → Sent ix.src new (round ix ix.src new s)
  unfolding round
  round-Sent s h more sent =
      let (scan_le, pos_le) = arrived_bounds ix new s h more in
      if_both (Sent ix.src new) (emits new (scanned ix new s))
        (put_triple-Sent ix.src new small old_small bo bn (arrived ix new s) (lengths ix new s)
          scan_le h.last_pos_le pos_le (arrived-Sent s sent) (arrived-Fits ix new s h more))
        (arrived-Sent s sent)

  diff_loop-Whole : Whole ix ix.src new
  diff_loop-Whole =
      let r =
        diff_loop-IsLoop ix new (Sent ix.src new) round-Sent (length new + 2) new_diff
          (new_diff-IsDiff ix new) (new_diff-Sent ix.src new small old_small bo bn 0) (omega arith)
          (λ h. omega arith) in
      record {
        last = r.last;
        returns = r.returns;
        sent = r.holds;
        at_end = r.is_diff.ended r.at_end;
        counted = r.is_diff.counted;
      }

module _ (old new : List ℕ) (small : length new < 2 ^ 56) (old_small : length old < 2 ^ 32)
    (bo : AreBytes old) (bn : AreBytes new) where
  abbrev probed : Index
  probed = set_probe (new_index old) plain_probe

  indexed : probed.src ≡ old
  unfolding set_probe
  indexed = src-new_index old

  probed-Whole : Whole probed old new
  probed-Whole =
      subst (λ o. Whole probed o new) indexed
        (diff_loop-Whole probed new small (rw indexed old_small) (rw indexed bo) bn)

  -- All of the new file is literals.
  abbrev literal : Diff
  literal =
      put_triple old new (record new_diff { scan = length new })
        (record { forward = 0; backward = 0 })

  literal-Sent : Sent old new literal
  literal-Sent =
      put_triple-Sent old new small old_small bo bn (record new_diff { scan = length new })
        (record { forward = 0; backward = 0 }) (omega arith) (omega arith) (omega arith)
        (new_diff-Sent old new small old_small bo bn (length new))
        (record {
          forward_old = omega arith;
          apart = omega arith;
          backward_pos = omega arith;
          at_end = λ e. refl;
        })

  literal-at_end : literal.last_scan ≡ length new
  unfolding put_triple
  literal-at_end = omega arith

  literal-counted : literal.count ≤ length new + 1
  unfolding put_triple
  literal-counted = omega arith

  plain_diff-empty : length old ≡ 0 → plain_diff old new ≡ ok (packed_diff literal)
  unfolding plain_diff put_triple write write_loop
  plain_diff-empty e =
      let nothing : length new - 0 - 0 ≡ length new = omega arith in
      let whole : slice 0 (0 + length new) new ≡ new =
        take-length_le (0 + length new - 0) new (omega arith) in
      rw (e, nothing, whole) refl

  abbrev Sends : Diff → Type 0
  Sends s = Sent old new s × (s.last_scan ≡ length new) × (s.count ≤ length new + 1)

  plain_diff-Sends : (s : Diff) × (plain_diff old new ≡ ok (packed_diff s)) × Sends s
  unfolding plain_diff
  plain_diff-Sends = elim (Bool-cases (length old == 0)) [
    | inl empty ↦ (
      literal,
      plain_diff-empty ((==_iff (length old) 0).0 empty),
      (literal-Sent, literal-at_end, literal-counted),
    )
    | inr some_old ↦
        let w = probed-Whole in
        (w.last, rw (some_old, w.returns) refl, (w.sent, w.at_end, w.counted))
  ]

  -- The body, and what plainPatch makes of it.
  pub record IsBody (b : List ℕ) : Type 0 where
    pub patched : plain_patch old b (length new) ≡ ok new
    pub short : length b ≤ 52 * length new + 70

  pub plain_diff-IsBody : (b : List ℕ) × (plain_diff old new ≡ ok b) × IsBody b
  plain_diff-IsBody =
      let (s, made, (sent, at_end, counted)) = plain_diff-Sends in
      (
        packed_diff s,
        made,
        record {
          patched = plain_patch-packed_diff old new small old_small bo bn s sent at_end counted;
          short = omega (
            arith,
            ap length (pack_plain_lem s.count s.ctrl s.diff.w s.extra),
            length-packed_le s.count s.ctrl s.diff.w s.extra,
            sent.ctrl_le,
            sent.diff_le,
            sent.logical_le,
            sent.extra_le,
          );
        },
      )

  -- For any two files of bytes, the new one below 2^56 and the old one below 2^32 bytes long,
  -- plainDiff returns a body, of which plainPatch makes the new file.
  pub plain_patch-plain_diff : (plain_diff old new >>= λ b. plain_patch old b (length new)) ≡ ok new
  plain_patch-plain_diff = let (b, made, is_body) = plain_diff-IsBody in rw made is_body.patched
