-- ===== src/Delta/Correct/Apply.antt =====
-- applyCorrection of delta/correct.go. The buffer that it rewrites in place is a list of bytes, and
-- comes back as the result.
use go_binsync.Prelude.{
  ℕ, zero, suc, ◌+◌, ◌-◌, ◌*◌, ◌/◌, ◌%◌, not, List, Option, none, some, Result, ok, err, ◌>>=◌,
  length, take, drop, slice, overwrite, ltb, ◌==◌, if◌then◌else◌,
}
use go_binsync.Delta.Errors.{
  Error, wrong_file, past_the_end, spans_past_the_end, few_literals, control_left, literals_left,
}
use go_binsync.Delta.Buf
use go_binsync.Delta.Buf.{Rbuf, reading}
use go_binsync.Delta.Lz.Apply
use go_binsync.Delta.Lz.Apply.{State}
use go_binsync.Delta.Correct.Encode.{slack_at}

-- The streams, the buffer and the place in it, before a region.
pub record Place : Type 0 where
  pub ctrl : List ℕ
  pub lit : List ℕ
  pub buf : List ℕ
  pub pos : ℕ

-- `if c.err != nil { return c.err }`
abbrev pub check : Option Error → Result Error (Unit {0})
check none = ok tt
check (some e) = err e

-- A region of literals at `pos`.
unfoldable pub copy_literals : Place → ℕ → Result Error Place
copy_literals p span =
    if ltb (length p.lit) span
    then err few_literals
    else ok (record p {
      buf = overwrite p.pos (take span p.lit) p.buf;
      lit = drop span p.lit;
      pos = p.pos + span;
    })

-- A region of lz ops at `pos`: the source is a copy of the window of the buffer. Every error of
-- Apply stays an error.
unfoldable pub run_ops : Place → ℕ → Result Error Place
unfolding slack_at
run_ops p span =
    let window = slice p.pos (p.pos + span + slack_at (p.pos + span) (length p.buf)) p.buf in
    (do
      s ← Apply.apply window p.ctrl p.lit span
      ok (record {
        ctrl = s.ctrl;
        lit = s.lit;
        buf = overwrite p.pos s.out p.buf;
        pos = p.pos + span;
      }))

-- One round of the loop, behind the reads of `gap` and `v`.
unfoldable pub region_at : Place → ℕ → ℕ → Result Error Place
unfolding copy_literals run_ops
region_at p gap v =
    let q = record p { pos = p.pos + gap } in
    let span = v / 2 in
    if ltb (length p.buf - p.pos) gap
    then err past_the_end
    else if ltb (length p.buf - q.pos) span
    then err spans_past_the_end
    else if v % 2 == 0
    then copy_literals q span
    else run_ops q span

unfoldable pub region : Place → Result Error Place
unfolding region_at Buf.un
region p =
    let (gap, c1) = Buf.un (reading p.ctrl) (length p.buf) in
    let (v, c2) = Buf.un c1 (length p.buf * 2 + 1) in
    (do _ ← check c2.error; region_at (record p { ctrl = c2.b }) gap v)

-- `for i := uint64(0); i < nregions; i++`
unfoldable pub region_loop : ℕ → Place → Result Error Place
unfolding region
region_loop zero p = ok p
region_loop (suc n) p = do q ← region p; region_loop n q

-- The checks behind the last region.
unfoldable pub finish : Place → Result Error (List ℕ)
finish p =
    if not (length p.ctrl == 0)
    then err control_left
    else if not (length p.lit == 0)
    then err literals_left
    else ok p.buf

unfoldable pub apply_correction : List ℕ → List ℕ → Result Error (List ℕ)
unfolding region_loop finish Buf.u Buf.un Buf.take_bytes Buf.done
apply_correction buf stream =
    let (n, r1) = Buf.u (reading stream) in
    let (nregions, r2) = Buf.un r1 (length buf + 1) in
    let (ctrl_len, r3) = Buf.un r2 (length stream) in
    let (lit_len, r4) = Buf.un r3 (length stream) in
    let (ctrl, r5) = Buf.take_bytes r4 ctrl_len in
    let (lit, r6) = Buf.take_bytes r5 lit_len in
    (do
      _ ← check (Buf.done r6)
      if not (n == length buf) then err wrong_file else (do
        p ← region_loop nregions (record { ctrl = ctrl; lit = lit; buf = buf; pos = 0 })
        finish p))
