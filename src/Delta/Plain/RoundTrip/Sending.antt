-- ===== src/Delta/Plain/RoundTrip/Sending.antt =====
-- What plainDiff has sent: the triples that it has written make the new file up to `last_scan`.
use go_binsync.Prelude.{
  ℕ, suc, ◌+◌, ◌-◌, ◌*◌, ◌^◌, ◌≤◌, ◌<◌, ◌≡◌, sym, ap, ◌∙◌, List, [], ◌++◌, append-nil, ok, ◌>>=◌,
  length, take, slice, take-slice, length-slice, length-take_le, length-append, append_assoc,
  All_take, All_drop, arith,
}
use go_binsync.Int64.{add64}
use go_binsync.Delta.Buf.Put
use go_binsync.Delta.Plain.Runs.{DiffWriter, write}
use go_binsync.Delta.Plain.Runs.Steps.{AreBytes, Later}
use go_binsync.Delta.Plain.Runs.RoundTrip.{Diffs, write-Diffs}
use go_binsync.Delta.Plain.Encode.{Diff, Lengths, minus, put_triple}
use go_binsync.Delta.Plain.Encode.Bounds.{Fits}
use go_binsync.Delta.Plain.Patch.{triple, triples}
use go_binsync.Delta.Plain.RoundTrip.Triple.{numbers, length-numbers, ahead, triple-put}

abbrev pub no_runs : DiffWriter
no_runs = record { w = []; logical = 0; last_end = 0 }

module _ (old new : List ℕ) where
  pub record Sent (s : Diff) : Type 0 where
    pub base_le : s.diff.last_end ≤ s.diff.logical
    pub logical_le : s.diff.logical ≤ s.last_scan
    pub count_le : s.count ≤ length s.ctrl
    pub ctrl_le : length s.ctrl ≤ 30 * s.count
    pub diff_le : length s.diff.w ≤ 21 * s.diff.logical
    pub extra_le : length s.extra ≤ s.last_scan
    pub later :
        (rest : List ℕ)
        → Later (length new) s.diff.logical s.diff.last_end rest
        → Later (length new) 0 0 (s.diff.w ++ rest)
    pub replays :
        (k : ℕ) (c d x : List ℕ)
        → Later (length new) s.diff.logical s.diff.last_end d
        → s.last_scan + length x ≤ length new
        → triples
            (s.count + k)
            old
            (length new)
            (ahead (length new) no_runs (s.ctrl ++ c) (s.diff.w ++ d) (s.extra ++ x) 0 [])
          ≡ triples k old
              (length new)
              (ahead (length new) s.diff c d x s.last_pos (take s.last_scan new))

  module _ (small : length new < 2 ^ 56) (old_small : length old < 2 ^ 32) (bo : AreBytes old)
      (bn : AreBytes new) (s : Diff) (l : Lengths) (scan_le : s.scan ≤ length new)
      (last_pos_le : s.last_pos ≤ length old) (pos_le : s.found.pos ≤ length old) (sent : Sent s)
      (fits : Fits old new s l) where
    abbrev mid : ℕ
    mid = s.last_scan + l.forward

    abbrev literals_len : ℕ
    literals_len = s.scan - l.backward - mid

    abbrev matched : List ℕ
    matched = slice s.last_scan mid new

    abbrev region : List ℕ
    region = slice s.last_pos (s.last_pos + l.forward) old

    abbrev literals : List ℕ
    literals = slice mid (mid + literals_len) new

    abbrev seek : ℕ
    seek = minus (s.found.pos - l.backward) (s.last_pos + l.forward)

    length-matched : length matched ≡ l.forward
    length-matched =
        length-slice s.last_scan mid new (omega arith) (omega (arith, fits.apart)) ∙ omega arith

    length-region : length region ≡ l.forward
    length-region =
        length-slice s.last_pos (s.last_pos + l.forward) old (omega arith) fits.forward_old
        ∙ omega arith

    length-literals : length literals ≡ literals_len
    length-literals =
        length-slice mid (mid + literals_len) new (omega arith) (omega (arith, fits.apart))
        ∙ omega arith

    runs : Diffs (length new) s.diff (write s.diff matched region) matched region
    runs =
        write-Diffs (length new) s.diff matched region (omega arith) sent.base_le
          (length-matched ∙ sym length-region)
          (omega (arith, length-matched, sent.logical_le, fits.apart))
          (All_take _ (mid - s.last_scan) _ (All_drop _ s.last_scan new bn))
          (All_take _ (s.last_pos + l.forward - s.last_pos) _ (All_drop _ s.last_pos old bo))

    copied : (take s.last_scan new ++ matched) ++ literals ≡ take (s.scan - l.backward) new
    copied =
        ap (λ t. t ++ literals) (take-slice s.last_scan mid new (omega arith))
        ∙ take-slice mid (mid + literals_len) new (omega arith)
        ∙ ap (λ (n : ℕ). take n new) {x = mid + literals_len} (omega (arith, fits.apart))

    sought : add64 (s.last_pos + l.forward) seek ≡ s.found.pos - l.backward
    unfolding add64
    sought = omega (arith, fits.forward_old)

    abbrev after : Diff
    after = put_triple old new s l

    triple-after :
        (c rest x : List ℕ)
        → Later (length new) after.diff.logical after.diff.last_end rest
        → length x ≤ length new
        → triple old (length new) (
            ahead
              (length new)
              s.diff
              (numbers l.forward literals_len seek c)
              (runs.bytes ++ rest)
              (literals ++ x)
              s.last_pos
              (take s.last_scan new))
          ≡ ok (ahead (length new) after.diff c rest x after.last_pos (take after.last_scan new))
    unfolding put_triple
    triple-after c rest x later le =
        triple-put old (length new) (omega arith) (omega arith) s.diff after.diff l.forward
          literals_len s.last_pos seek (s.found.pos - l.backward) (take s.last_scan new) matched
          literals (take (s.scan - l.backward) new) c rest x runs later length-matched
          length-literals
          (omega (arith, length-take_le s.last_scan new (omega (arith, fits.apart)), fits.apart))
          fits.forward_old (omega arith) (omega (arith, length-append literals x, length-literals))
          sought copied

    triple-numbers :
        (c : List ℕ) → after.ctrl ++ c ≡ s.ctrl ++ numbers l.forward literals_len seek c
    unfolding put_triple Put.u Put.s
    triple-numbers c = simp append_assoc

    length-ctrl : (length s.ctrl + 1 ≤ length after.ctrl) × (length after.ctrl ≤ length s.ctrl + 30)
    length-ctrl =
        let e = ap length (sym (append-nil after.ctrl) ∙ triple-numbers []) in
        grind (
          arith,
          e,
          length-append s.ctrl (numbers l.forward literals_len seek []),
          length-numbers l.forward literals_len seek [],
        )

    -- What was written before the triple, and the triple.
    replays-after :
        (k : ℕ) (c d x : List ℕ)
        → Later (length new) after.diff.logical after.diff.last_end d
        → after.last_scan + length x ≤ length new
        → triples (s.count + suc k) old (length new) (
            ahead
              (length new)
              no_runs
              (s.ctrl ++ numbers l.forward literals_len seek c)
              (s.diff.w ++ (runs.bytes ++ d))
              (s.extra ++ (literals ++ x))
              0
              [])
          ≡ triples k old
              (length new)
              (ahead (length new) after.diff c d x after.last_pos (take after.last_scan new))
    unfolding triples put_triple
    replays-after k c d x h le =
        sent.replays (suc k) (numbers l.forward literals_len seek c) (runs.bytes ++ d)
          (literals ++ x) (runs.later d h)
          (omega (arith, le, length-append literals x, length-literals, fits.apart))
        ∙ ap (λ r. r >>= triples k old (length new)) (triple-after c d x h (omega (arith, le)))

    pub put_triple-Sent : Sent (put_triple old new s l)
    unfolding put_triple Put.raw
    put_triple-Sent = record {
      base_le = runs.base_le;
      logical_le = omega (arith, runs.logical_eq, length-matched, fits.apart, sent.logical_le);
      count_le = omega (arith, length-ctrl.0, sent.count_le);
      ctrl_le = omega (arith, length-ctrl.1, sent.ctrl_le);
      diff_le = omega (
        arith,
        runs.logical_eq,
        runs.size,
        ap length runs.appended,
        length-append s.diff.w runs.bytes,
        sent.diff_le,
      );
      extra_le =
          omega (arith, fits.apart, length-literals, length-append s.extra literals, sent.extra_le);
      later = λ rest h.
          rw (runs.appended, append_assoc) (sent.later (runs.bytes ++ rest) (runs.later rest h));
      replays = λ k c d x h le.
          let n : s.count + 1 + k ≡ s.count + suc k = omega arith in
          rw
            (
              n,
              triple-numbers c,
              runs.appended,
              append_assoc s.diff.w runs.bytes d,
              append_assoc s.extra literals x,
            )
            (replays-after k c d x h le);
    }
