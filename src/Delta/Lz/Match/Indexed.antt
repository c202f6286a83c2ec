-- ===== src/Delta/Lz/Match/Indexed.antt =====
-- What NewIndex leaves in the tables of an Index, where it panics at an index out of range.
use go_binsync.Prelude.{
  ℕ, zero, suc, ◌+◌, ◌-◌, ◌*◌, ◌/◌, ◌%◌, ◌^◌, ◌≤◌, ◌<◌, ◌≡◌, refl, sym, ap, ◌∙◌, inl, inr, List, [],
  length, take, replicate, ◌==◌, Bool-cases, if◌then◌else◌, Result, ok, ◌>>=◌, All,
  length-replicate, length-take, arith,
}
use mathlib.Core.Path.{subst}
use native.Mathlib.Nat.{div-lt_iff_lt-mul, mod-le, pow-succ', mul_assoc}
use go_binsync.Delta.Errors.{Error}
use go_binsync.Delta.Lz.Match.{
  Index, at, little_endian, hash, hash_bits_for, count_loop, prefix_sums, fill_loop, new_index,
}
use go_binsync.Delta.Lz.Match.Tables.{
  at-replicate, at-take, replicate-All, sum, sum-replicate, length-prefix_sums, prefix_sums-le,
  prefix_sums-step,
}
use go_binsync.Delta.Lz.Match.Built.{
  count_checked, fill_checked, occurrences, Counted, count_loop-Counted, fill_loop-Filled,
}

two_pow-add : (a b : ℕ) → 2 ^ a * 2 ^ b ≡ 2 ^ (a + b)
two_pow-add zero b = let z : zero + b ≡ b = omega arith in rw z (omega arith)
two_pow-add (suc a) b =
    let up : 2 ^ suc a ≡ 2 * 2 ^ a = pow-succ' 2 a in
    let next : suc a + b ≡ suc (a + b) = omega arith in
    rw (up, next, mul_assoc 2 (2 ^ a) (2 ^ b), two_pow-add a b, pow-succ' 2 (a + b)) refl

two_pow-pos : (n : ℕ) → 0 < 2 ^ n
two_pow-pos zero = omega arith
two_pow-pos (suc n) = omega (arith, two_pow-pos n, pow-succ' 2 n)

-- The high bits of a word are an index into the table.
hash_lt : (hb : ℕ) (b : List ℕ) → hb ≤ 64 → hash (64 - hb) b < 2 ^ hb
unfolding hash
hash_lt hb b h =
    let whole : 2 ^ hb * 2 ^ (64 - hb) ≡ 2 ^ 64 =
      two_pow-add hb (64 - hb)
      ∙ ap (λ (e : ℕ). 2 ^ e) {x = hb + (64 - hb)} {y = 64} (omega arith) in
    let x = little_endian (take 8 b) % 2 ^ 48 * 0x9E3779B97F4A7C15 % 2 ^ 64 in
    let below : x < 2 ^ 64 = omega arith in
    let divided : x / 2 ^ (64 - hb) < 2 ^ hb =
      (div-lt_iff_lt-mul (two_pow-pos (64 - hb))).1 (subst (λ (m : ℕ). x < m) (sym whole) below) in
    omega (arith, divided, mod-le (x / 2 ^ (64 - hb)) (2 ^ 32))

hash_bits_le : (n : ℕ) → hash_bits_for n ≤ 22
unfolding hash_bits_for
hash_bits_le n = omega arith

-- The tables of an Index, where every lookup of Find is in range.
pub record IsIndex (ix : Index) : Type 0 where
  pub size : ℕ
  pub buckets : length ix.bucket ≡ size + 1
  pub in_table : (b : List ℕ) → hash ix.shift b < size
  pub rising : (b : ℕ) → b < size → at ix.bucket b ≤ at ix.bucket (b + 1)
  pub ends : (b : ℕ) → at ix.bucket b ≤ length ix.pos
  pub places : All (λ x. x ≤ length ix.src) ix.pos

abbrev index_of : List ℕ → List ℕ → List ℕ → ℕ → Index
index_of src bucket pos shift = record {
  src = src;
  bucket = bucket;
  pos = pos;
  shift = shift;
  probe = 5;
}

-- NewIndex, with the bounds of its tables checked.
unfoldable pub new_index_checked : List ℕ → Result Error Index
unfolding count_checked fill_checked hash_bits_for prefix_sums hash
new_index_checked src =
    let hb = hash_bits_for (length src) in
    let n = length src - 7 in
    if n == 0 then ok (index_of src (replicate (2 ^ hb + 1) 0) [] (64 - hb)) else (do
      counts ← count_checked n (64 - hb) src (replicate (2 ^ hb + 1) 0)
      let bucket = prefix_sums 0 counts
      pos ← fill_checked n 0 (64 - hb) src (take (2 ^ hb) bucket) (replicate n 0)
      ok (index_of src bucket pos (64 - hb)))

module _ (src : List ℕ) (small : length src < 2 ^ 32) where
  abbrev hb : ℕ
  hb = hash_bits_for (length src)

  abbrev n : ℕ
  n = length src - 7

  abbrev empty_counts : List ℕ
  empty_counts = replicate (2 ^ hb + 1) 0

  abbrev counts : List ℕ
  counts = count_loop n (64 - hb) src empty_counts

  abbrev bucket : List ℕ
  bucket = prefix_sums 0 counts

  abbrev filled : List ℕ
  filled = fill_loop n 0 (64 - hb) src (take (2 ^ hb) bucket) (replicate n 0)

  in_range : (b : List ℕ) → hash (64 - hb) b < 2 ^ hb
  in_range b = hash_lt hb b (omega (arith, hash_bits_le (length src)))

  length-empty : length empty_counts ≡ 2 ^ hb + 1
  length-empty = length-replicate (2 ^ hb + 1) 0

  counted :
      (count_checked n (64 - hb) src empty_counts ≡ ok counts)
      × Counted (64 - hb) (2 ^ hb) in_range n src empty_counts counts
  counted =
      count_loop-Counted (64 - hb) (2 ^ hb) in_range n src empty_counts length-empty
        (omega (arith, sum-replicate (2 ^ hb + 1), small))

  sum-counts : sum counts ≡ n
  sum-counts = omega (arith, counted.1.more, sum-replicate (2 ^ hb + 1))

  length-bucket : length bucket ≡ 2 ^ hb + 1
  length-bucket = length-prefix_sums 0 counts ∙ counted.1.same_length ∙ length-empty

  bucket_le : (i : ℕ) → at bucket i ≤ n
  bucket_le i =
      omega (arith, prefix_sums-le 0 counts i (omega (arith, sum-counts, small)), sum-counts)

  bucket-step :
      (h : ℕ) → h < 2 ^ hb → at bucket (suc h) ≡ at bucket h + occurrences n (64 - hb) src h
  bucket-step h lt =
      let long = counted.1.same_length ∙ length-empty in
      omega (
        arith,
        prefix_sums-step 0 counts h (omega (arith, sum-counts, small)) (omega (arith, long, lt)),
        counted.1.each h,
        at-replicate (2 ^ hb + 1) (suc h),
      )

  filled_lem :
      (fill_checked n 0 (64 - hb) src (take (2 ^ hb) bucket) (replicate n 0) ≡ ok filled)
      × (length filled ≡ length (replicate {A = ℕ} n 0))
      × All (λ x. x ≤ length src) filled
  filled_lem =
      let long = length-replicate {A = ℕ} n 0 in
      fill_loop-Filled (64 - hb) (2 ^ hb) in_range n 0 src (take (2 ^ hb) bucket) (replicate n 0)
        (length src) (omega (arith, length-take (2 ^ hb) bucket, length-bucket))
        (omega (arith, long, small))
        (λ h lt.
          omega (arith, at-take (2 ^ hb) h bucket lt, bucket-step h lt, bucket_le (suc h), long))
        (omega arith) small (replicate-All (λ x. x ≤ length src) n 0 (omega arith))

  built : Index
  built = index_of src bucket filled (64 - hb)

  built-IsIndex : IsIndex built
  unfolding built
  built-IsIndex = record {
    size = 2 ^ hb;
    buckets = length-bucket;
    in_table = in_range;
    rising = λ b lt.
        omega (arith, ap (at bucket) {x = b + 1} {y = suc b} (omega arith), bucket-step b lt);
    ends = λ b. omega (arith, bucket_le b, filled_lem.1, length-replicate {A = ℕ} n 0);
    places = filled_lem.2;
  }

  without : Index
  without = index_of src empty_counts [] (64 - hb)

  without-IsIndex : IsIndex without
  unfolding without
  without-IsIndex = record {
    size = 2 ^ hb;
    buckets = length-empty;
    in_table = in_range;
    rising = λ b lt. omega (arith, at-replicate (2 ^ hb + 1) b, at-replicate (2 ^ hb + 1) (b + 1));
    ends = λ b. omega (arith, at-replicate (2 ^ hb + 1) b);
    places = tt;
  }

  -- No write of NewIndex is out of range.
  pub new_index-IsIndex : (new_index_checked src ≡ ok (new_index src)) × IsIndex (new_index src)
  unfolding new_index new_index_checked
  new_index-IsIndex = elim (Bool-cases (n == 0)) [
    | inl none ↦ rw none (refl, unfold without in without-IsIndex)
    | inr some ↦ rw (some, counted.0, filled_lem.0) (refl, unfold built in built-IsIndex)
  ]
