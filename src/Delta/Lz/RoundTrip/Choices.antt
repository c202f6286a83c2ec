-- ===== src/Delta/Lz/RoundTrip/Choices.antt =====
-- One round of Emit: the match it settles on, and what it does then.
use go_binsync.Prelude.{
  ℕ, suc, ◌+◌, ◌-◌, ◌^◌, ◌≤◌, ◌<◌, ◌≡◌, ◌≢◌, List, ◌&&◌, inl, inr, true, false, length, drop, slice,
  ltb, arith, length-drop, Bool-cases, ◌==◌,
}
use go_binsync.Delta.Lz.Match.{Index, Found, from, find}
use go_binsync.Delta.Lz.Match.Sound.{IsFind, find-IsFind}
use go_binsync.Delta.Lz.Emit.{Streams, seek_from, put_op, finish, Choice, choose, emit_loop}
use go_binsync.Delta.Lz.RoundTrip.Rebuilding.{
  Rebuilds, finish_nothing-Rebuilds, finish_literals-Rebuilds,
}

-- What `choose` settles on is a match that starts at or behind `p`.
pub record IsChosen (src dst : List ℕ) (p : ℕ) (c : Choice) : Type 0 where
  pub behind : p ≤ c.p
  pub some : c.found.len ≢ 0
  pub in_dst : c.p + c.found.len ≤ length dst
  pub in_src : c.found.pos + c.found.len ≤ length src
  pub same : slice c.found.pos (c.found.pos + c.found.len) src ≡ slice c.p (c.p + c.found.len) dst

pub IsFind-IsChosen :
    (src dst : List ℕ) (p : ℕ) (m : Found) (q : ℕ)
    → q ≤ p
    → p < length dst
    → IsFind src (drop p dst) m
    → m.len ≢ 0
    → IsChosen src dst q (record { p = p; found = m })
IsFind-IsChosen src dst p m q le lt f nz = record {
  behind = le;
  some = nz;
  in_dst = omega (arith, f.in_tail, length-drop p dst);
  in_src = f.in_src nz;
  same = rw (left, right) f.same;
}
  where
    left : m.pos + m.len - m.pos ≡ m.len
    left = omega arith

    right : p + m.len - p ≡ m.len
    right = omega arith

pub choose-IsChosen :
    (ix : Index) (dst : List ℕ) (p cursor : ℕ)
    → p < length dst
    → (find ix dst p (from cursor)).len ≢ 0
    → IsChosen ix.src dst p (choose ix dst p cursor (find ix dst p (from cursor)))
choose-IsChosen ix dst p cursor lt nz =
    let m = find ix dst p (from cursor) in
    let m2 = find ix dst (p + 1) (from cursor) in
    elim (Bool-cases (ltb (p + 1) (length dst) && ltb (m.len + 1) m2.len)) [
      | inl later ↦
          unfold choose in
          rw later (
            IsFind-IsChosen ix.src dst (p + 1) m2 p (omega arith) (ground arith)
              (find-IsFind ix dst (p + 1) (from cursor)) (ground arith))
      | inr here ↦
          unfold choose in
          rw here (
            IsFind-IsChosen ix.src dst p m p (omega arith) lt (find-IsFind ix dst p (from cursor))
              nz)
    ]

pub finish-Rebuilds :
    (src dst : List ℕ) (cursor p : ℕ) (o : Streams)
    → p ≤ length dst
    → length dst < 2 ^ 62
    → Rebuilds src dst cursor p o (finish dst p o)
finish-Rebuilds src dst cursor p o h hd = elim (Bool-cases (ltb p (length dst))) [
  | inl more ↦
      unfold finish in rw more (finish_literals-Rebuilds src dst cursor p o (ground arith) hd)
  | inr end ↦ unfold finish in rw end (finish_nothing-Rebuilds src dst cursor p o (ground arith))
]

module _ (fuel : ℕ) (ix : Index) (dst : List ℕ) (cursor p start : ℕ) (o : Streams) where
  abbrev pub here : Found
  here = find ix dst p (from cursor)

  abbrev pub chosen : Choice
  chosen = choose ix dst p cursor here

  pub emit_loop_end :
      ltb p (length dst) ≡ false → emit_loop (suc fuel) ix dst cursor p start o ≡ finish dst start o
  unfolding emit_loop
  emit_loop_end h = rw h

  pub emit_loop_skip :
      ltb p (length dst) ≡ true
      → (here.len == 0) ≡ true
      → emit_loop (suc fuel) ix dst cursor p start o ≡ emit_loop fuel ix dst cursor (p + 1) start o
  unfolding emit_loop
  emit_loop_skip h k = rw (h, k)

  pub emit_loop_next :
      ltb p (length dst) ≡ true
      → (here.len == 0) ≡ false
      → emit_loop (suc fuel) ix dst cursor p start o
        ≡ emit_loop fuel ix dst
            (chosen.found.pos + chosen.found.len)
            (chosen.p + chosen.found.len)
            (chosen.p + chosen.found.len)
            (put_op o
              (chosen.p - start)
              chosen.found.len
              (seek_from cursor chosen.found.pos)
              (slice start chosen.p dst))
  unfolding emit_loop
  emit_loop_next h k = rw (h, k)
