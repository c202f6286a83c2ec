-- ===== src/Delta/Lz/Match/Sound.antt =====
-- What Find returns is a match: the bytes at the place that it names are the bytes asked for.
use go_binsync.Prelude.{
  ℕ, zero, suc, ◌+◌, ◌-◌, ◌*◌, ◌≤◌, ◌≡◌, ◌≢◌, refl, sym, List, [], ◌∷◌, inl, inr, length, take,
  drop, ltb, leb, if_both, ◌&&◌, ◌||◌, arith, length-drop, take-nil, Bool-cases, ◌==◌,
  if◌then◌else◌,
}
use go_binsync.Delta.Lz.Match.{
  Index, Found, Hint, from, no_preference, common_prefix, match_len_loop, match_len, try, try_both,
  near_probes, far_probes, at_hint, nothing, probe_bucket, long_enough, among, entries, find,
  wanted, at, min_match,
}

common_prefix_bound :
    (a b : List ℕ) → (common_prefix a b ≤ length a) × (common_prefix a b ≤ length b)
common_prefix_bound [] b = omega arith
common_prefix_bound (x ∷ a) [] = omega arith
common_prefix_bound (x ∷ a) (y ∷ b) = ground (arith, common_prefix_bound a b)

take-common_prefix : (a b : List ℕ) → take (common_prefix a b) a ≡ take (common_prefix a b) b
take-common_prefix [] b = sym (take-nil 0)
take-common_prefix (x ∷ a) [] = refl
take-common_prefix (x ∷ a) (y ∷ b) = ground (arith, take-common_prefix a b)

-- Eight equal bytes and then more are one longer common prefix.
common_prefix_step :
    (n : ℕ) (a b : List ℕ)
    → n ≤ length a
    → n ≤ length b
    → common_prefix a b ≡ (
        if common_prefix (take n a) (take n b) == n
        then n + common_prefix (drop n a) (drop n b)
        else common_prefix (take n a) (take n b))
common_prefix_step zero a b h k = omega arith
common_prefix_step (suc n) [] b h k = absurd (omega arith)
common_prefix_step (suc n) (x ∷ a) [] h k = absurd (omega arith)
common_prefix_step (suc n) (x ∷ a) (y ∷ b) h k = ground (arith, common_prefix_step n a b)

match_len_loop-eq-common_prefix :
    (fuel : ℕ) (a b : List ℕ) → match_len_loop fuel a b ≡ common_prefix a b
unfolding match_len_loop
match_len_loop-eq-common_prefix zero a b = refl
match_len_loop-eq-common_prefix (suc fuel) a b =
    ground
      (arith, common_prefix_step 8 a b, match_len_loop-eq-common_prefix fuel (drop 8 a) (drop 8 b))

-- The chunked matchLen counts the common prefix of its arguments, byte by byte.
pub match_len-eq-common_prefix : (a b : List ℕ) → match_len a b ≡ common_prefix a b
unfolding match_len
match_len-eq-common_prefix a b = match_len_loop-eq-common_prefix (length a) a b

-- A match of `tail` in the source.
pub record IsMatch (src tail : List ℕ) (m : Found) : Type 0 where
  pub in_tail : m.len ≤ length tail
  pub in_src : m.len ≢ 0 → m.pos + m.len ≤ length src
  pub same : take m.len (drop m.pos src) ≡ take m.len tail

nothing-IsMatch : (src tail : List ℕ) → IsMatch src tail nothing
nothing-IsMatch src tail = record {
  in_tail = omega arith;
  in_src = λ h. absurd (h refl);
  same = refl;
}

match_len-IsMatch :
    (src tail : List ℕ) (p : ℕ)
    → IsMatch src tail (record { pos = p; len = match_len (drop p src) tail })
match_len-IsMatch src tail p = rw match_len-eq-common_prefix (record {
  in_tail = (common_prefix_bound (drop p src) tail).1;
  in_src = λ h. omega (arith, (common_prefix_bound (drop p src) tail).0, length-drop p src);
  same = take-common_prefix (drop p src) tail;
})

module _ (ix : Index) (ents tail : List ℕ) where
  try-IsMatch :
      (i : ℕ) {best : Found}
      → IsMatch ix.src tail best
      → IsMatch ix.src tail (try ix ents tail i best)
  unfolding try
  try-IsMatch i {best} m = elim (Bool-cases (leb (length ents) i)) [
    | inl out ↦ rw out m
    | inr in_range ↦
        rw in_range (elim (Bool-cases (ltb best.len (match_len (drop (at ents i) ix.src) tail))) [
          | inl longer ↦ rw longer (match_len-IsMatch ix.src tail (at ents i))
          | inr shorter ↦ rw shorter m
        ])
  ]

  try_both-IsMatch :
      (k d : ℕ) {best : Found}
      → IsMatch ix.src tail best
      → IsMatch ix.src tail (try_both ix ents tail k d best)
  try_both-IsMatch k d {best} m = elim (Bool-cases (ltb k d)) [
    | inl out ↦ unfold try_both in rw out (try-IsMatch (k + d - 1) m)
    | inr in_range ↦
        unfold try_both in rw in_range (try-IsMatch (k + d - 1) (try-IsMatch (k - d) m))
  ]

  near_probes-IsMatch :
      (n d k : ℕ) {best : Found}
      → IsMatch ix.src tail best
      → IsMatch ix.src tail (near_probes n d ix ents tail k best)
  unfolding near_probes
  near_probes-IsMatch zero d k m = m
  near_probes-IsMatch (suc n) d k m = near_probes-IsMatch n (d + 1) k (try_both-IsMatch k d m)

  far_probes-IsMatch :
      (n step k : ℕ) {best : Found}
      → IsMatch ix.src tail best
      → IsMatch ix.src tail (far_probes n step ix ents tail k best)
  unfolding far_probes
  far_probes-IsMatch zero step k m = m
  far_probes-IsMatch (suc n) step k m =
      far_probes-IsMatch n (step * 4) k (try_both-IsMatch k step m)

  probe_bucket-IsMatch :
      (want : ℕ) {best : Found}
      → IsMatch ix.src tail best
      → IsMatch ix.src tail (probe_bucket ix ents tail want best)
  unfolding probe_bucket
  probe_bucket-IsMatch want m =
      try-IsMatch (length ents - 1)
        (try-IsMatch 0 (far_probes-IsMatch ix.probe 8 _ (near_probes-IsMatch 8 1 _ m)))

at_hint-IsMatch : (ix : Index) (tail : List ℕ) (h : Hint) → IsMatch ix.src tail (at_hint ix tail h)
unfolding at_hint
at_hint-IsMatch ix tail no_preference = nothing-IsMatch ix.src tail
at_hint-IsMatch ix tail (from h) =
    elim (Bool-cases (ltb h (length ix.src) && leb min_match (match_len (drop h ix.src) tail))) [
      | inl good ↦ rw good (match_len-IsMatch ix.src tail h)
      | inr bad ↦ rw bad (nothing-IsMatch ix.src tail)
    ]

-- A match that Find may return: none, or one of at least MinMatch bytes.
pub record IsFind (src tail : List ℕ) (m : Found) : Type 0 where
  pub is_match : IsMatch src tail m
  pub open is_match use *
  pub long : m.len ≢ 0 → 6 ≤ m.len
  pub at_start : m.len ≡ 0 → m.pos ≡ 0

nothing-IsFind : (src tail : List ℕ) → IsFind src tail nothing
nothing-IsFind src tail = record {
  is_match = nothing-IsMatch src tail;
  long = λ h. absurd (h refl);
  at_start = λ h. refl;
}

long_enough-IsFind :
    (src tail : List ℕ) {m : Found} → IsMatch src tail m → IsFind src tail (long_enough m)
unfolding long_enough
long_enough-IsFind src tail {m} h = elim (Bool-cases (ltb m.len 6)) [
  | inl short ↦ rw short (nothing-IsFind src tail)
  | inr long ↦
      rw long
        (record { is_match = h; long = λ _. ground arith; at_start = λ e. absurd (ground arith) })
]

among-IsFind :
    (ix : Index) (tail : List ℕ) (p : ℕ) (hint : Hint) (ents : List ℕ)
    → IsFind ix.src tail (among ix tail p hint ents)
unfolding among
among-IsFind ix tail p hint ents =
    let hinted = at_hint-IsMatch ix tail hint in
    if_both (IsFind ix.src tail) (length ents == 0) (long_enough-IsFind ix.src tail hinted)
      (long_enough-IsFind ix.src tail (probe_bucket-IsMatch ix ents tail (wanted hint p) hinted))

-- Where a lookup out of range stands for nothing, find gives no match or a true one, of at least
-- MinMatch bytes. No match is at the place 0.
pub find-IsFind :
    (ix : Index) (dst : List ℕ) (p : ℕ) (hint : Hint)
    → IsFind ix.src (drop p dst) (find ix dst p hint)
unfolding find
find-IsFind ix dst p hint =
    if_both (IsFind ix.src (drop p dst)) (ltb (length dst) (p + 8) || length ix.pos == 0)
      (nothing-IsFind ix.src (drop p dst))
      (among-IsFind ix (drop p dst) p hint (entries ix (drop p dst)))
