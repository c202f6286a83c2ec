-- ===== src/Delta/Lz/Match/Built.antt =====
-- NewIndex with the bounds that Go checks: no write of it is out of range, and no count wraps.
use go_binsync.Prelude.{
  ℕ, zero, suc, ◌+◌, ◌%◌, ◌^◌, ◌≤◌, ◌<◌, ◌≡◌, refl, ap, List, length, drop, set, Bool, ◌==◌, ==_iff,
  true, false, if◌then◌else◌, Result, ok, ◌>>=◌, All, length-set, arith,
}
use mathlib.Core.Path.{subst}
use native.Mathlib.Decide.{ℕ_discrete}
use go_binsync.Delta.Errors.{Error}
use go_binsync.Delta.Lz.Match.{at, hash, count_loop, fill_loop}
use go_binsync.Delta.Lz.Match.Tables.{
  lookup, store, lookup-at, store-set, at-set_self, at-set_ne, at_le_sum, set-All, sum, sum-set,
}

-- count_loop, with the bounds checked.
unfoldable pub count_checked : ℕ → ℕ → List ℕ → List ℕ → Result Error (List ℕ)
unfolding lookup store
count_checked zero shift src counts = ok counts
count_checked (suc k) shift src counts = do
  let b = hash shift src + 1
  c ← lookup counts b
  next ← store counts b ((c + 1) % 2 ^ 32)
  count_checked k shift (drop 1 src) next

-- fill_loop, with the bounds checked.
unfoldable pub fill_checked : ℕ → ℕ → ℕ → List ℕ → List ℕ → List ℕ → Result Error (List ℕ)
unfolding lookup store
fill_checked zero i shift src fill pos = ok pos
fill_checked (suc k) i shift src fill pos = do
  let h = hash shift src
  f ← lookup fill h
  next ← store pos f (i % 2 ^ 32)
  moved ← store fill h ((f + 1) % 2 ^ 32)
  fill_checked k (i + 1) shift (drop 1 src) moved next

-- How often a hash is met in the next `k` rounds.
pub occurrences : ℕ → ℕ → List ℕ → ℕ → ℕ
occurrences zero shift src h = 0
occurrences (suc k) shift src h =
    (if hash shift src == h then 1 else 0) + occurrences k shift (drop 1 src) h

module _ (shift size : ℕ) (in_table : (src : List ℕ) → hash shift src < size) where
  -- What the first loop leaves.
  pub record Counted (k : ℕ) (src counts out : List ℕ) : Type 0 where
    pub same_length : length out ≡ length counts
    pub more : sum out ≡ sum counts + k
    pub each : (h : ℕ) → at out (suc h) ≡ at counts (suc h) + occurrences k shift src h

  pub count_loop-Counted :
      (k : ℕ) (src counts : List ℕ)
      → length counts ≡ size + 1
      → sum counts + k < 2 ^ 32
      → (count_checked k shift src counts ≡ ok (count_loop k shift src counts))
        × Counted k src counts (count_loop k shift src counts)
  unfolding count_checked count_loop occurrences
  count_loop-Counted zero src counts len small =
      (refl, record { same_length = refl; more = omega arith; each = λ h. omega arith })
  count_loop-Counted (suc k) src counts len small =
      let h0 = hash shift src in
      let v = (at counts (h0 + 1) + 1) % 2 ^ 32 in
      let lt : h0 + 1 < length counts = omega (arith, in_table src, len) in
      let small_c = at_le_sum counts (h0 + 1) in
      let total = sum-set counts (h0 + 1) v lt in
      let same = length-set counts (h0 + 1) v in
      let (made, c) =
        count_loop-Counted k (drop 1 src) (set counts (h0 + 1) v) (omega (arith, same, len))
          (omega (arith, total, small_c, small)) in
      (
        rw (lookup-at counts (h0 + 1) lt, store-set counts (h0 + 1) v lt) made,
        record {
          same_length = omega (arith, c.same_length, same);
          more = omega (arith, c.more, total, small_c);
          each = λ h. elim (ℕ_discrete h0 h) [
            | yes e ↦
                let hit : (h0 == h) ≡ true = (==_iff h0 h).1 e in
                let here : at (set counts (h0 + 1) v) (suc h) ≡ v =
                  subst (λ (j : ℕ). at (set counts (h0 + 1) v) j ≡ v) {x = h0 + 1} {y = suc h}
                    (omega arith) (at-set_self counts (h0 + 1) v lt) in
                let index : at counts (h0 + 1) ≡ at counts (suc h) =
                  ap (at counts) {x = h0 + 1} (omega arith) in
                rw hit (omega (arith, c.each h, here, index, small_c))
            | no ne ↦
                let miss : (h0 == h) ≡ false = ground arith in
                let other = at-set_ne counts (h0 + 1) (suc h) v (λ e. ne (omega arith)) in
                rw miss (omega (arith, c.each h, other))
          ];
        },
      )

  one_below : {b : Bool} (n o m : ℕ) → b ≡ true → n + ((if b then 1 else 0) + o) ≤ m → n + 1 + o ≤ m
  one_below {b} n o m e h = ground arith

  none_below : {b : Bool} (n o m : ℕ) → b ≡ false → n + ((if b then 1 else 0) + o) ≤ m → n + o ≤ m
  none_below {b} n o m e h = ground arith

  -- What the second loop needs: room for each bucket, and then what it leaves.
  pub fill_loop-Filled :
      (k i : ℕ) (src fill pos : List ℕ) (bound : ℕ)
      → length fill ≡ size
      → length pos < 2 ^ 32
      → ((h : ℕ) → h < size → at fill h + occurrences k shift src h ≤ length pos)
      → i + k ≤ bound
      → bound < 2 ^ 32
      → All (λ x. x ≤ bound) pos
      → (fill_checked k i shift src fill pos ≡ ok (fill_loop k i shift src fill pos))
        × (length (fill_loop k i shift src fill pos) ≡ length pos)
        × All (λ x. x ≤ bound) (fill_loop k i shift src fill pos)
  unfolding fill_checked fill_loop occurrences
  fill_loop-Filled zero i src fill pos bound len small room le bs all = (refl, refl, all)
  fill_loop-Filled (suc k) i src fill pos bound len small room le bs all =
      let h0 = hash shift src in
      let f = at fill h0 in
      let v = (f + 1) % 2 ^ 32 in
      let in_fill : h0 < length fill = omega (arith, in_table src, len) in
      let self : (h0 == h0) ≡ true = (==_iff h0 h0).1 refl in
      let room0 = room h0 (in_table src) in
      let fits : f < length pos = omega (arith, one_below _ _ _ self room0) in
      let same = length-set pos f (i % 2 ^ 32) in
      let same_fill = length-set fill h0 v in
      let next : (h : ℕ)
          → h < size
          → at (set fill h0 v) h + occurrences k shift (drop 1 src) h
            ≤ length (set pos f (i % 2 ^ 32)) =
        λ h lt. elim (ℕ_discrete h0 h) [
          | yes e ↦
              let hit : (h0 == h) ≡ true = (==_iff h0 h).1 e in
              let here : at (set fill h0 v) h ≡ v =
                subst (λ (j : ℕ). at (set fill h0 v) j ≡ v) e (at-set_self fill h0 v in_fill) in
              let index : f ≡ at fill h = ap (at fill) e in
              let r = room h lt in
              omega (arith, one_below _ _ _ hit r, here, index, same, fits, small)
          | no ne ↦
              let miss : (h0 == h) ≡ false = ground arith in
              let other = at-set_ne fill h0 h v ne in
              let r = room h lt in omega (arith, none_below _ _ _ miss r, other, same)
        ] in
      let (made, l, a) =
        fill_loop-Filled k (i + 1) (drop 1 src) (set fill h0 v) (set pos f (i % 2 ^ 32)) bound
          (omega (arith, same_fill, len)) (omega (arith, same, small)) next (omega arith) bs
          (set-All (λ x. x ≤ bound) pos f (i % 2 ^ 32) all (omega arith)) in
      (
        rw
            (
              lookup-at fill h0 in_fill,
              store-set pos f (i % 2 ^ 32) fits,
              store-set fill h0 v in_fill,
            )
            made,
        omega (arith, l, same),
        a,
      )
