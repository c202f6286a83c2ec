-- ===== src/Delta/Plain/Encode/Bounds.antt =====
-- The scan of plainDiff moves on and stays within both files, and so do the extensions.
use go_binsync.Prelude.{
  ℕ, zero, suc, ◌+◌, ◌-◌, ◌*◌, ◌≤◌, ◌<◌, ◌≡◌, ◌≢◌, refl, ◌∙◌, true, List, [], ◌∷◌, length, take,
  drop, slice, ltb, ◌==◌, if◌then◌else◌, inl, inr, Bool-cases, arith, length-take, length-drop,
  length-slice, length-reverse,
}
use mathlib.Core.List.{reverse}
use go_binsync.Int64.{add64}
use go_binsync.Delta.Lz.Match.{Index, find}
use go_binsync.Delta.Lz.Match.Sound.{find-IsFind}
use go_binsync.Delta.Plain.Encode.{
  Scan, Diff, Lengths, hint_of, stops, look, move_on, scan_loop, extend, split, extensions,
  without_overlap,
}

module _ (ix : Index) (new : List ℕ) where
  -- A scan that has come from `start`.
  pub record Scanned (start : ℕ) (t : Scan) : Type 0 where
    pub from_start : start ≤ t.scan
    pub to_end : t.scan ≤ length new
    pub pos_le : t.found.pos ≤ length ix.src
    pub inside : t.scan < length new → t.scan + t.found.len ≤ length new

  stops-long : (t : Scan) → stops t ≡ true → t.lost ≡ 0 → 1 ≤ t.found.len
  unfolding stops
  stops-long t h e = ground arith

  look-found :
      (old : List ℕ) (off : ℕ) (s : Scan)
      → ((look ix old new off s).found.pos ≤ length ix.src)
        × (s.scan ≤ length new → s.scan + (look ix old new off s).found.len ≤ length new)
  unfolding look
  look-found old off s =
      let found = find ix new s.scan (hint_of (add64 s.scan off)) in
      let m = find-IsFind ix new s.scan (hint_of (add64 s.scan off)) in
      (
        pos_within found.len found.pos m.at_start m.in_src,
        λ h. omega (arith, m.in_tail, length-drop s.scan new),
      )
    where
      pos_within :
          (len pos : ℕ)
          → (len ≡ 0 → pos ≡ 0)
          → (len ≢ 0 → pos + len ≤ length ix.src)
          → pos ≤ length ix.src
      pos_within zero pos h k = omega (arith, h refl)
      pos_within (suc n) pos h k = omega (arith, k (λ e. cc))

  pub scan_loop-Scanned :
      (n : ℕ) (old : List ℕ) (off : ℕ) (s : Scan)
      → s.scan + n ≡ length new
      → s.found.pos ≤ length ix.src
      → Scanned s.scan (scan_loop n ix old new off s)
  unfolding scan_loop
  scan_loop-Scanned zero old off s e p = record {
    from_start = omega arith;
    to_end = omega arith;
    pos_le = p;
    inside = λ h. omega arith;
  }
  scan_loop-Scanned (suc n) old off s e p = elim (Bool-cases (stops (look ix old new off s))) [
    | inl stop ↦
        let (pos_le, inside) = look-found old off s in
        rw stop (record {
          from_start = omega arith;
          to_end = omega arith;
          pos_le = pos_le;
          inside = λ h. inside (omega arith);
        })
    | inr on ↦
        let t = move_on old new off (look ix old new off s) in
        let r = scan_loop-Scanned n old off t (omega arith) (look-found old off s).0 in
        rw on (record {
          from_start = omega (arith, r.from_start);
          to_end = r.to_end;
          pos_le = r.pos_le;
          inside = r.inside;
        })
  ]

  -- Where a byte is left, the scan moves, or stops at once at a match.
  pub scan_loop-moves :
      (n : ℕ) (old : List ℕ) (off : ℕ) (s : Scan)
      → s.scan + suc n ≡ length new
      → s.found.pos ≤ length ix.src
      → s.lost ≡ 0
      → let t = scan_loop (suc n) ix old new off s in s.scan + 1 ≤ t.scan + t.found.len
  unfolding scan_loop
  scan_loop-moves n old off s e p l = elim (Bool-cases (stops (look ix old new off s))) [
    | inl stop ↦ rw stop (omega (arith, stops-long (look ix old new off s) stop l))
    | inr on ↦
        let t = move_on old new off (look ix old new off s) in
        rw on (
          omega (
            arith,
            (scan_loop-Scanned n old off t (omega arith) (look-found old off s).0).from_start,
          ))
  ]

extend-le :
    (i s best len : ℕ) (xs ys : List ℕ)
    → len ≤ i
    → (extend i s best len xs ys ≤ i + length xs) × (extend i s best len xs ys ≤ i + length ys)
unfolding extend
extend-le i s best len [] ys h = (omega arith, omega arith)
extend-le i s best len (x ∷ xs) [] h = (omega arith, omega arith)
extend-le i s best len (x ∷ xs) (y ∷ ys) h =
    let s' = if x == y then s + 1 else s in
    let better = ltb (best * 2 + (i + 1)) (s' * 2 + len) in
    let r =
      extend-le (i + 1) s' (if better then s' else best) (if better then i + 1 else len) xs ys
        (ground arith) in
    (omega (arith, r.0), omega (arith, r.1))

split-le :
    (i up down best lens : ℕ) (xs ys zs : List ℕ)
    → lens ≤ i
    → split i up down best lens xs ys zs ≤ i + length xs
unfolding split
split-le i up down best lens [] ys zs h = omega arith
split-le i up down best lens (x ∷ xs) [] zs h = omega arith
split-le i up down best lens (x ∷ xs) (y ∷ ys) [] h = omega arith
split-le i up down best lens (x ∷ xs) (y ∷ ys) (z ∷ zs) h =
    let up' = if x == y then up + 1 else up in
    let down' = if x == z then down + 1 else down in
    let better = ltb (best + down') up' in
    omega (
      arith,
      split-le (i + 1) up' down' (if better then up' - down' else best)
          (if better then i + 1 else lens) xs ys zs (ground arith),
    )

-- The extensions of a triple: they stay within both files, and do not overlap.
pub record Fits (old new : List ℕ) (s : Diff) (l : Lengths) : Type 0 where
  pub forward_old : s.last_pos + l.forward ≤ length old
  pub apart : s.last_scan + l.forward + l.backward ≤ s.scan
  pub backward_pos : l.backward ≤ s.found.pos
  pub at_end : s.scan ≡ length new → l.backward ≡ 0

module _ (old new : List ℕ) (s : Diff) (scan_ge : s.last_scan ≤ s.scan)
    (scan_le : s.scan ≤ length new) (pos_le : s.found.pos ≤ length old)
    (last_le : s.last_pos ≤ length old) where
  abbrev between : List ℕ
  between = slice s.last_scan s.scan new

  length-between : length between ≡ s.scan - s.last_scan
  length-between = length-slice s.last_scan s.scan new scan_ge scan_le

  backward_le :
      let l = extensions old new s in
      (l.backward ≤ s.found.pos)
      × (l.backward ≤ s.scan - s.last_scan)
      × (s.scan ≡ length new → l.backward ≡ 0)
  unfolding extensions
  backward_le =
      let r = extend-le 0 0 0 0 (reverse between) (reverse (take s.found.pos old)) (omega arith) in
      let within = length-reverse between ∙ length-between in
      let pos_size = length-reverse (take s.found.pos old) ∙ length-take s.found.pos old in
      elim (Bool-cases (ltb s.scan (length new))) [
        | inl more ↦
            rw more
              (omega (arith, r.1, pos_size), omega (arith, r.0, within), λ e. absurd (ground arith))
        | inr at_end ↦ rw at_end (omega arith, omega arith, λ e. refl)
      ]

  forward_le :
      let l = extensions old new s in
      (l.forward ≤ s.scan - s.last_scan) × (s.last_pos + l.forward ≤ length old)
  unfolding extensions
  forward_le =
      let r = extend-le 0 0 0 0 between (drop s.last_pos old) (omega arith) in
      (omega (arith, r.0, length-between), omega (arith, r.1, length-drop s.last_pos old))

  pub extensions-Fits : Fits old new s (without_overlap old new s (extensions old new s))
  unfolding without_overlap
  extensions-Fits =
      let l = extensions old new s in
      elim (Bool-cases (ltb (s.scan - l.backward) (s.last_scan + l.forward))) [
        | inl overlaps ↦
            let overlap = s.last_scan + l.forward - (s.scan - l.backward) in
            let both = slice (s.scan - l.backward) (s.last_scan + l.forward) new in
            let from_old = slice (s.last_pos + l.forward - overlap) (s.last_pos + l.forward) old in
            let from_found =
              slice (s.found.pos - l.backward) (s.found.pos - l.backward + overlap) old in
            let (forward_scan, forward_old) = forward_le in
            let (backward_pos, backward_scan, at_end) = backward_le in
            let over : s.scan - l.backward < s.last_scan + l.forward = ground (arith, overlaps) in
            let lens_le : split 0 0 0 0 0 both from_old from_found ≤ overlap = omega (
              arith,
              split-le 0 0 0 0 0 both from_old from_found (omega arith),
              length-slice (s.scan - l.backward) (s.last_scan + l.forward) new (omega arith)
                  (omega arith),
            ) in
            rw overlaps (record {
              forward_old = omega arith;
              apart = omega arith;
              backward_pos = omega arith;
              at_end = λ e. omega (arith, at_end e);
            })
        | inr disjoint ↦ rw disjoint (record {
          forward_old = forward_le.1;
          apart = ground (arith, disjoint, forward_le, backward_le);
          backward_pos = backward_le.0;
          at_end = backward_le.2;
        })
      ]
