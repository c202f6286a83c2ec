-- ===== src/Delta/Lz/Emit.antt =====
-- Index.Emit and Emit of delta/internal/lz/lz.go: the encoder of the op stream.
use go_binsync.Prelude.{
  ℕ, zero, suc, ◌+◌, ◌-◌, ◌%◌, ◌^◌, ◌&&◌, List, ◌++◌, length, slice, drop, ltb, ◌==◌, if◌then◌else◌,
}
use go_binsync.Varint.{put_uvarint, put_varint}
use go_binsync.Delta.Lz.Match.{Index, Found, from, find, new_index}

pub record Streams : Type 0 where
  pub ctrl : List ℕ
  pub lit : List ℕ

-- `int64(q - cursor)` of two ints that are not below 0.
abbrev pub seek_from : ℕ → ℕ → ℕ
seek_from cursor q = (q + 2 ^ 64 - cursor) % 2 ^ 64

unfoldable pub put_op : Streams → ℕ → ℕ → ℕ → List ℕ → Streams
put_op o nlit ncopy seek lits = record {
  ctrl = ((o.ctrl ++ put_uvarint nlit) ++ put_uvarint ncopy) ++ put_varint seek;
  lit = o.lit ++ lits;
}

-- What is left behind the last copy goes out as literals.
unfoldable pub finish : List ℕ → ℕ → Streams → Streams
unfolding put_op
finish dst lit_start o =
    if ltb lit_start (length dst)
    then put_op o (length dst - lit_start) 0 0 (drop lit_start dst)
    else o

-- Where the op starts and what it copies: the match at `p`, or the longer one a byte later.
pub record Choice : Type 0 where
  pub p : ℕ
  pub found : Found

unfoldable pub choose : Index → List ℕ → ℕ → ℕ → Found → Choice
choose ix dst p cursor m =
    let m2 = find ix dst (p + 1) (from cursor) in
    if ltb (p + 1) (length dst) && ltb (m.len + 1) m2.len
    then record { p = p + 1; found = m2 }
    else record { p = p; found = m }

-- `for p < len(dst)`. Each round moves `p` on, so `len(dst)` rounds are enough.
unfoldable pub emit_loop : ℕ → Index → List ℕ → ℕ → ℕ → ℕ → Streams → Streams
unfolding put_op choose finish
emit_loop zero ix dst cursor p lit_start o = finish dst lit_start o
emit_loop (suc fuel) ix dst cursor p lit_start o =
    let m = find ix dst p (from cursor) in
    let c = choose ix dst p cursor m in
    let q = c.found.pos in
    let l = c.found.len in
    let skip = emit_loop fuel ix dst cursor (p + 1) lit_start o in
    let next =
      emit_loop fuel ix dst (q + l) (c.p + l) (c.p + l)
        (put_op o (c.p - lit_start) l (seek_from cursor q) (slice lit_start c.p dst)) in
    if ltb p (length dst) then (if m.len == 0 then skip else next) else finish dst lit_start o

unfoldable pub emit_with : Index → List ℕ → List ℕ → List ℕ → Streams
unfolding emit_loop
emit_with ix dst ctrl lit = emit_loop (length dst) ix dst 0 0 0 (record { ctrl = ctrl; lit = lit })

unfoldable pub emit : List ℕ → List ℕ → List ℕ → List ℕ → Streams
unfolding emit_with
emit src dst ctrl lit = emit_with (new_index src) dst ctrl lit
