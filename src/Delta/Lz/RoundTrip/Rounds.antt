-- ===== src/Delta/Lz/RoundTrip/Rounds.antt =====
-- One round of Apply on an op that is well formed.
use go_binsync.Prelude.{
  ℕ, suc, ◌+◌, ◌-◌, ◌%◌, ◌^◌, ◌≤◌, ◌<◌, ◌≡◌, ◌≢◌, refl, ◌∙◌, List, ◌++◌, ok, length, slice, arith,
  length-append, take-append, drop-append,
}
use go_binsync.Delta.Lz.Emit.{seek_from}
use go_binsync.Delta.Lz.Apply.Ops.{op_bytes, read_op-op_bytes}
use go_binsync.Delta.Lz.Apply.{
  State, Op, run_literals, copy_at, run_copy, finish_op, run_op, round, apply_loop,
}

pub apply_loop_step :
    (n : ℕ) (src : List ℕ) (s : State) {s' : State}
    → s.left ≢ 0
    → round src s ≡ ok s'
    → apply_loop (suc n) src s ≡ apply_loop n src s'
unfolding apply_loop
apply_loop_step n src s h e = rw e (ground arith)

abbrev pub literals_done : State → ℕ → List ℕ → State
literals_done s n lits = record s { out = s.out ++ lits; left = s.left - n }

-- The literals of an op that stand at the front of the stream.
pub run_literals-append :
    (op : Op) (s : State) (lits rest : List ℕ)
    → s.lit ≡ lits ++ rest
    → op.nlit ≡ length lits
    → length lits ≤ s.left
    → run_literals op s
      ≡ ok (record s { out = s.out ++ lits; lit = rest; left = s.left - length lits })
unfolding run_literals
run_literals-append op s lits rest e n h =
    ground
      (arith, length-append lits rest, take-append lits rest op.nlit, drop-append lits rest op.nlit)

pub copy_at-slice :
    (src : List ℕ) (op : Op) (s : State) (q : ℕ)
    → length src < 2 ^ 62
    → q + op.ncopy ≤ length src
    → op.ncopy ≤ s.left
    → copy_at src op s q (q + op.ncopy)
      ≡ ok (record s {
        cursor = q + op.ncopy;
        out = s.out ++ slice q (q + op.ncopy) src;
        left = s.left - op.ncopy;
      })
unfolding copy_at
copy_at-slice src op s q hs fits room = ground arith

-- A copy whose cursor stays in the source.
pub run_copy-slice :
    (src : List ℕ) (op : Op) (s : State) (q : ℕ)
    → length src < 2 ^ 62
    → s.cursor ≤ length src
    → op.seek ≡ seek_from s.cursor q
    → q + op.ncopy ≤ length src
    → op.ncopy ≤ s.left
    → run_copy src op s
      ≡ ok (record s {
        cursor = q + op.ncopy;
        out = s.out ++ slice q (q + op.ncopy) src;
        left = s.left - op.ncopy;
      })
run_copy-slice src op s q hs hc e fits room =
    unfold run_copy in rw (lo, hi) (copy_at-slice src op s q hs fits room)
  where
    lo : (s.cursor + op.seek) % 2 ^ 64 ≡ q
    lo = rw e (omega arith)

    hi : (q + op.ncopy) % 2 ^ 64 ≡ q + op.ncopy
    hi = omega arith

pub finish_op-copy :
    (src : List ℕ) (op : Op) (s : State) → op.ncopy ≢ 0 → finish_op src op s ≡ run_copy src op s
unfolding finish_op
finish_op-copy src op s h = ground arith

-- A round that reads an op with a copy.
pub round_copy :
    (src : List ℕ) (s : State) (q l : ℕ) (lits crest lrest : List ℕ)
    → length src < 2 ^ 62
    → s.cursor ≤ length src
    → s.left < 2 ^ 62
    → q + l ≤ length src
    → l ≢ 0
    → length lits + l ≤ s.left
    → s.ctrl ≡ op_bytes (length lits) l (seek_from s.cursor q) crest
    → s.lit ≡ lits ++ lrest
    → round src s
      ≡ ok (record {
        ctrl = crest;
        lit = lrest;
        cursor = q + l;
        out = (s.out ++ lits) ++ slice q (q + l) src;
        left = s.left - length lits - l;
      })
round_copy src s q l lits crest lrest hs hc hl fits nz room ec el =
    unfold round in
    rw ec (
      rw
        (read_op-op_bytes (length lits) l (seek_from s.cursor q) crest (omega arith) (omega arith)
          (omega arith))
        (unfold run_op finish_op in
          rw (run_literals-append op (record s { ctrl = crest }) lits lrest el refl (omega arith)) (
            finish_op-copy src op after nz
            ∙ run_copy-slice src op after q hs hc refl fits (omega arith))))
  where
    op : Op
    op = record { nlit = length lits; ncopy = l; seek = seek_from s.cursor q }

    after : State
    after = record s { ctrl = crest; lit = lrest; out = s.out ++ lits; left = s.left - length lits }

-- A round that reads an op of literals alone.
pub round_literals :
    (src : List ℕ) (s : State) (lits crest lrest : List ℕ)
    → s.left < 2 ^ 62
    → length lits ≢ 0
    → length lits ≤ s.left
    → s.ctrl ≡ op_bytes (length lits) 0 0 crest
    → s.lit ≡ lits ++ lrest
    → round src s
      ≡ ok
          (record s { ctrl = crest; lit = lrest; out = s.out ++ lits; left = s.left - length lits })
round_literals src s lits crest lrest hl nz room ec el =
    unfold round in
    rw ec (
      rw (read_op-op_bytes (length lits) 0 0 crest (omega arith) (omega arith) (omega arith)) (
        unfold run_op in
        rw (run_literals-append op (record s { ctrl = crest }) lits lrest el refl room)
          (unfold finish_op in ground arith)))
  where
    op : Op
    op = record { nlit = length lits; ncopy = 0; seek = 0 }
