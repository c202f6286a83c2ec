-- ===== src/Delta/Plain/Encode/Rounds.antt =====
-- The loop of plainDiff over the new file: what holds in front of each of its rounds, and that the
-- rounds come to an end.
use go_binsync.Prelude.{
  ℕ, zero, suc, ◌+◌, ◌-◌, ◌≤◌, ◌<◌, ◌≡◌, ◌≢◌, refl, false, List, length, ltb, Result, ok, inl, inr,
  Bool-cases, arith,
}
use go_binsync.Delta.Errors.{Error}
use go_binsync.Delta.Lz.Match.{Index}
use go_binsync.Delta.Plain.Encode.{
  Scan, Diff, Lengths, scan_loop, extensions, without_overlap, put_triple, emits, round, diff_loop,
  new_diff,
}
use go_binsync.Delta.Plain.Encode.Bounds.{
  Scanned, scan_loop-Scanned, scan_loop-moves, Fits, extensions-Fits,
}

-- In front of a round.
pub record IsDiff (old new : List ℕ) (s : Diff) : Type 0 where
  pub last_le : s.last_scan ≤ s.scan
  pub scan_le : s.scan ≤ length new
  pub last_pos_le : s.last_pos ≤ length old
  pub pos_le : s.found.pos ≤ length old
  pub inside : s.scan < length new → s.scan + s.found.len ≤ length new
  pub ended : s.scan ≡ length new → s.last_scan ≡ length new
  pub counted : s.count ≤ length new + 1
  pub counted_inside : s.scan < length new → s.count ≤ s.scan + s.found.len

module _ (ix : Index) (new : List ℕ) where
  -- The round's scan.
  abbrev pub scanned : Diff → Scan
  scanned s =
      let start = s.scan + s.found.len in
      scan_loop (length new - start) ix ix.src new s.last_offset
        (record { scan = start; scsc = start; gained = 0; lost = 0; found = s.found })

  -- The state behind the round's scan.
  abbrev pub arrived : Diff → Diff
  arrived s = record s { scan = (scanned s).scan; found = (scanned s).found }

  abbrev pub lengths : Diff → Lengths
  lengths s = without_overlap ix.src new (arrived s) (extensions ix.src new (arrived s))

  -- How far a round takes the scan.
  record Moved (s : Diff) (t : Scan) : Type 0 where
    run : Scanned ix new (s.scan + s.found.len) t
    moves : t.scan < length new → s.scan + s.found.len + 1 ≤ t.scan + t.found.len

  scan-moves :
      (off : ℕ) (t0 : Scan) (n : ℕ)
      → t0.scan + n ≡ length new
      → t0.found.pos ≤ length ix.src
      → t0.lost ≡ 0
      → let t = scan_loop n ix ix.src new off t0 in
        t.scan < length new → t0.scan + 1 ≤ t.scan + t.found.len
  unfolding scan_loop
  scan-moves off t0 zero e p l k = absurd (omega arith)
  scan-moves off t0 (suc n) e p l k = scan_loop-moves ix new n ix.src off t0 e p l

  scanned-Moved : (s : Diff) → IsDiff ix.src new s → s.scan < length new → Moved s (scanned s)
  scanned-Moved s h more =
      let start = s.scan + s.found.len in
      let t0 : Scan = record {
        scan = start;
        scsc = start;
        gained = 0;
        lost = 0;
        found = s.found;
      } in
      record {
        run =
            scan_loop-Scanned ix new (length new - start) ix.src s.last_offset t0
              (omega (arith, h.inside more)) h.pos_le;
        moves =
            scan-moves s.last_offset t0 (length new - start) (omega (arith, h.inside more)) h.pos_le
              refl;
      }

  pub arrived-Fits :
      (s : Diff)
      → IsDiff ix.src new s
      → s.scan < length new
      → Fits ix.src new (arrived s) (lengths s)
  arrived-Fits s h more =
      let m = (scanned-Moved s h more).run in
      extensions-Fits ix.src new (arrived s) (omega (arith, m.from_start, h.last_le)) m.to_end
        m.pos_le h.last_pos_le

  pub arrived_bounds :
      (s : Diff)
      → IsDiff ix.src new s
      → s.scan < length new
      → ((arrived s).scan ≤ length new) × ((arrived s).found.pos ≤ length ix.src)
  arrived_bounds s h more = let m = (scanned-Moved s h more).run in (m.to_end, m.pos_le)

  -- Nothing is emitted before the end but at a match.
  not_emitted : (t : Scan) → emits new t ≡ false → t.scan ≢ length new
  unfolding emits
  not_emitted t h = ground arith

  round-IsDiff :
      (s : Diff)
      → IsDiff ix.src new s
      → s.scan < length new
      → IsDiff ix.src new (round ix ix.src new s)
  unfolding round put_triple
  round-IsDiff s h more =
      let m = scanned-Moved s h more in
      let f = arrived-Fits s h more in
      elim (Bool-cases (emits new (scanned s))) [
        | inl emitted ↦ rw emitted (record {
          last_le = omega arith;
          scan_le = m.run.to_end;
          last_pos_le = omega (arith, m.run.pos_le);
          pos_le = m.run.pos_le;
          inside = m.run.inside;
          ended = λ e. omega (arith, f.at_end e);
          counted = omega (arith, h.counted_inside more, h.inside more);
          counted_inside = λ k. omega (arith, m.moves k, h.counted_inside more);
        })
        | inr passed ↦ rw passed (record {
          last_le = omega (arith, m.run.from_start, h.last_le);
          scan_le = m.run.to_end;
          last_pos_le = h.last_pos_le;
          pos_le = m.run.pos_le;
          inside = m.run.inside;
          ended = λ e. absurd (not_emitted (scanned s) passed e);
          counted = h.counted;
          counted_inside = λ k. omega (arith, m.moves k, h.counted_inside more);
        })
      ]

  round-moves :
      (s : Diff)
      → IsDiff ix.src new s
      → s.scan < length new
      → let t = round ix ix.src new s in
        t.scan < length new → s.scan + s.found.len + 1 ≤ t.scan + t.found.len
  unfolding round put_triple
  round-moves s h more =
      let m = scanned-Moved s h more in
      elim (Bool-cases (emits new (scanned s))) [
        | inl emitted ↦ rw emitted m.moves
        | inr passed ↦ rw passed m.moves
      ]

  -- The loop returns the state behind some rounds, which is at the end of the new file.
  pub record IsLoop (P : Diff → Type 0) (r : Result Error Diff) : Type 0 where
    pub last : Diff
    pub returns : r ≡ ok last
    pub is_diff : IsDiff ix.src new last
    pub at_end : last.scan ≡ length new
    pub holds : P last

  -- What a round keeps holds behind the loop.
  pub diff_loop-IsLoop :
      (P : Diff → Type 0)
      → ((s : Diff) → IsDiff ix.src new s → s.scan < length new → P s → P (round ix ix.src new s))
      → (fuel : ℕ) (s : Diff) → IsDiff ix.src new s
      → P s
      → 1 ≤ fuel
      → (s.scan < length new → length new + 2 ≤ fuel + s.scan + s.found.len)
      → IsLoop P (diff_loop fuel ix ix.src new s)
  unfolding diff_loop
  diff_loop-IsLoop P keep zero s h p some_fuel enough = absurd (omega arith)
  diff_loop-IsLoop P keep (suc fuel) s h p some_fuel enough =
      elim (Bool-cases (ltb s.scan (length new))) [
        | inl more ↦
            let lt : s.scan < length new = ground arith in
            rw more (
              diff_loop-IsLoop P keep fuel (round ix ix.src new s) (round-IsDiff s h lt)
                (keep s h lt p) (omega (arith, enough lt, h.inside lt))
                (λ k. omega (arith, enough lt, round-moves s h lt k)))
        | inr end_of ↦ rw end_of (record {
          last = s;
          returns = refl;
          is_diff = h;
          at_end = ground (arith, h.scan_le);
          holds = p;
        })
      ]

  -- In front of the first round.
  pub new_diff-IsDiff : IsDiff ix.src new new_diff
  new_diff-IsDiff = record {
    last_le = omega arith;
    scan_le = omega arith;
    last_pos_le = omega arith;
    pos_le = omega arith;
    inside = λ h. omega arith;
    ended = λ h. omega arith;
    counted = omega arith;
    counted_inside = λ h. omega arith;
  }
