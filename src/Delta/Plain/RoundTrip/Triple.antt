-- ===== src/Delta/Plain/RoundTrip/Triple.antt =====
-- One triple of plainPatch, on what plainDiff writes for it.
use go_binsync.Prelude.{
  ℕ, ◌+◌, ◌^◌, ◌≤◌, ◌<◌, ◌≡◌, refl, sym, ap, ◌∙◌, false, List, ◌++◌, ok, ◌>>=◌, length, slice,
  arith, length-append, take-append, drop-append,
}
use go_binsync.Int64.{add64}
use go_binsync.Int64.Laws.{add64-eq, lt64-false}
use go_binsync.Varint.{IsU64, is_neg, put_uvarint, put_varint, zigzag}
use go_binsync.Delta.Correct.RoundTrip.Bounds.{length-put_uvarint, put_uvarint-nonempty}
use go_binsync.Delta.Buf.{reading}
use go_binsync.Delta.Buf.Laws.{un-put, s-put}
use go_binsync.Delta.Plain.Runs.{DiffWriter, DiffReader, advance, add}
use go_binsync.Delta.Plain.Runs.Steps.{before, Later}
use go_binsync.Delta.Plain.Runs.RoundTrip.{Diffs}
use go_binsync.Delta.Plain.Patch.{Progress, old_slice, copy_match, copy_literals, triple}

-- The three numbers of a triple, in front of `c`.
abbrev pub numbers : ℕ → ℕ → ℕ → List ℕ → List ℕ
numbers nd ne seek c = put_uvarint nd ++ (put_uvarint ne ++ (put_varint seek ++ c))

pub length-numbers :
    (nd ne seek : ℕ) (c : List ℕ)
    → (2 + length c ≤ length (numbers nd ne seek c))
      × (length (numbers nd ne seek c) ≤ 30 + length c)
unfolding put_varint
length-numbers nd ne seek c =
    let r2 = put_varint seek ++ c in
    let r1 = put_uvarint ne ++ r2 in
    let a0 = length-append (put_uvarint nd) r1 in
    let a1 = length-append (put_uvarint ne) r2 in
    let a2 = length-append (put_varint seek) c in
    (
      omega (arith, a0, a1, a2, put_uvarint-nonempty nd, put_uvarint-nonempty ne),
      omega (
        arith,
        a0,
        a1,
        a2,
        length-put_uvarint nd,
        length-put_uvarint ne,
        length-put_uvarint (zigzag seek),
      ),
    )

-- The patcher, in front of the bytes `c`, `d` and `x` of the three streams.
abbrev pub ahead : ℕ → DiffWriter → List ℕ → List ℕ → List ℕ → ℕ → List ℕ → Progress
ahead max w c d x opos out = record {
  ctrl = reading c;
  diff = advance (before max w.logical w.last_end d);
  extra = x;
  opos = opos;
  out = out;
}

module _ (old : List ℕ) (max : ℕ) (small : max < 2 ^ 62) (old_small : length old < 2 ^ 62) where
  pub copy_match-add :
      (nd : ℕ) (p : Progress) (d : DiffReader) (xs : List ℕ)
      → length p.out + nd ≤ max
      → p.opos + nd ≤ length old
      → add p.diff (slice p.opos (p.opos + nd) old) ≡ ok (d, xs)
      → copy_match old max nd p ≡ ok (record p { diff = d; out = p.out ++ xs; opos = p.opos + nd })
  unfolding copy_match old_slice
  copy_match-add nd p d xs room in_old added =
      let end_of = add64-eq p.opos nd (omega arith) in
      let positive : is_neg p.opos ≡ false = ground arith in
      rw
        (
          lt64-false max (length p.out + nd) room (omega arith),
          positive,
          end_of,
          lt64-false (length old) (p.opos + nd) in_old (omega arith),
          lt64-false (p.opos + nd) p.opos (omega arith) (omega arith),
          added,
        )
        refl

  pub copy_literals-append :
      (ne seek : ℕ) (p : Progress) (ex x : List ℕ)
      → ne ≡ length ex
      → p.extra ≡ ex ++ x
      → length p.out + ne ≤ max
      → length p.extra < 2 ^ 62
      → copy_literals max ne seek p
        ≡ ok (record p { out = p.out ++ ex; extra = x; opos = add64 p.opos seek })
  unfolding copy_literals
  copy_literals-append ne seek p ex x n e room fits =
      rw
        (
          lt64-false (length p.extra) ne (omega (arith, ap length e, length-append ex x))
              (omega arith),
          lt64-false max (length p.out + ne) room (omega arith),
          e,
          take-append ex x ne n,
          drop-append ex x ne n,
        )
        refl

  pub triple-put :
      (d d' : DiffWriter) (nd ne opos seek opos' : ℕ) (out xs ex out' c rest x : List ℕ)
      → (runs : Diffs max d d' xs (slice opos (opos + nd) old))
      → Later max d'.logical d'.last_end rest
      → length xs ≡ nd
      → length ex ≡ ne
      → length out + nd + ne ≤ max
      → opos + nd ≤ length old
      → IsU64 seek
      → length (ex ++ x) < 2 ^ 62
      → add64 (opos + nd) seek ≡ opos'
      → (out ++ xs) ++ ex ≡ out'
      → triple old max (ahead max d (numbers nd ne seek c) (runs.bytes ++ rest) (ex ++ x) opos out)
        ≡ ok (ahead max d' c rest x opos' out')
  unfolding triple
  triple-put d d' nd ne opos seek opos' out xs ex out' c rest x runs later n m room in_old is_seek
        fits sought made =
      let p = ahead max d c (runs.bytes ++ rest) (ex ++ x) opos out in
      let q = ahead max d' c rest (ex ++ x) (opos + nd) (out ++ xs) in
      rw
        (
          un-put nd max (put_uvarint ne ++ (put_varint seek ++ c)) (omega arith) (omega arith),
          un-put ne max (put_varint seek ++ c) (omega arith) (omega arith),
          s-put seek c is_seek,
        )
        (ap (λ r. r >>= copy_literals max ne seek)
            (copy_match-add nd p q.diff xs (omega arith) in_old (runs.put_back rest later))
          ∙ copy_literals-append ne seek q ex x (sym m) refl (omega (arith, length-append out xs))
              fits
          ∙ ap (λ (o : ℕ). ok (ahead max d' c rest x o ((out ++ xs) ++ ex))) sought
          ∙ ap (λ t. ok (ahead max d' c rest x opos' t)) made)
