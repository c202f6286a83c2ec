-- ===== src/Delta/Lz/Match/Tables.antt =====
-- Lists of numbers as the tables of an Index: reads and writes in range.
use go_binsync.Prelude.{
  ℕ, zero, suc, ◌+◌, ◌%◌, ◌^◌, ◌≤◌, ◌<◌, ◌≡◌, ◌≢◌, refl, ap, List, [], ◌∷◌, length, take, set,
  replicate, ltb, true, Result, ok, panic, if◌then◌else◌, All, arith,
}
use go_binsync.Delta.Errors.{Error}
use go_binsync.Delta.Lz.Match.{at, prefix_sums}

-- xs[i], and a write to it; out of range, Go panics.
unfoldable pub lookup : List ℕ → ℕ → Result Error ℕ
lookup [] i = panic
lookup (x ∷ xs) zero = ok x
lookup (x ∷ xs) (suc i) = lookup xs i

unfoldable pub store : List ℕ → ℕ → ℕ → Result Error (List ℕ)
store xs i x = if ltb i (length xs) then ok (set xs i x) else panic

pub lookup-at : (xs : List ℕ) (i : ℕ) → i < length xs → lookup xs i ≡ ok (at xs i)
unfolding lookup
lookup-at [] i h = absurd (omega arith)
lookup-at (x ∷ xs) zero h = refl
lookup-at (x ∷ xs) (suc i) h = lookup-at xs i (omega arith)

pub store-set : (xs : List ℕ) (i x : ℕ) → i < length xs → store xs i x ≡ ok (set xs i x)
unfolding store
store-set xs i x h = let fits : ltb i (length xs) ≡ true = ground arith in rw fits refl

pub at-set_self : (xs : List ℕ) (i v : ℕ) → i < length xs → at (set xs i v) i ≡ v
at-set_self [] i v h = absurd (omega arith)
at-set_self (x ∷ xs) zero v h = refl
at-set_self (x ∷ xs) (suc i) v h = at-set_self xs i v (omega arith)

pub at-set_ne : (xs : List ℕ) (i j v : ℕ) → i ≢ j → at (set xs i v) j ≡ at xs j
at-set_ne [] i j v h = refl
at-set_ne (x ∷ xs) zero zero v h = absurd (h refl)
at-set_ne (x ∷ xs) zero (suc j) v h = refl
at-set_ne (x ∷ xs) (suc i) zero v h = refl
at-set_ne (x ∷ xs) (suc i) (suc j) v h = at-set_ne xs i j v (λ e. h (ap suc e))

pub at-replicate : (n i : ℕ) → at (replicate n 0) i ≡ 0
at-replicate zero i = refl
at-replicate (suc n) zero = refl
at-replicate (suc n) (suc i) = at-replicate n i

pub at-take : (n i : ℕ) (xs : List ℕ) → i < n → at (take n xs) i ≡ at xs i
at-take zero i xs h = absurd (omega arith)
at-take (suc n) i [] h = refl
at-take (suc n) zero (x ∷ xs) h = refl
at-take (suc n) (suc i) (x ∷ xs) h = at-take n i xs (omega arith)

module _ (P : ℕ → Type 0) where
  pub at-All : (xs : List ℕ) (i : ℕ) → All P xs → i < length xs → P (at xs i)
  at-All [] i a h = absurd (omega arith)
  at-All (x ∷ xs) zero (p, a) h = p
  at-All (x ∷ xs) (suc i) (p, a) h = at-All xs i a (omega arith)

  pub set-All : (xs : List ℕ) (i v : ℕ) → All P xs → P v → All P (set xs i v)
  set-All [] i v a q = tt
  set-All (x ∷ xs) zero v (p, a) q = (q, a)
  set-All (x ∷ xs) (suc i) v (p, a) q = (p, set-All xs i v a q)

  pub replicate-All : (n x : ℕ) → P x → All P (replicate n x)
  replicate-All zero x p = tt
  replicate-All (suc n) x p = (p, replicate-All n x p)

pub sum : List ℕ → ℕ
sum [] = 0
sum (x ∷ xs) = x + sum xs

pub at_le_sum : (xs : List ℕ) (i : ℕ) → at xs i ≤ sum xs
unfolding sum
at_le_sum [] i = omega arith
at_le_sum (x ∷ xs) zero = omega arith
at_le_sum (x ∷ xs) (suc i) = omega (arith, at_le_sum xs i)

pub sum-set : (xs : List ℕ) (i v : ℕ) → i < length xs → sum (set xs i v) + at xs i ≡ sum xs + v
unfolding sum
sum-set [] i v h = absurd (omega arith)
sum-set (x ∷ xs) zero v h = omega arith
sum-set (x ∷ xs) (suc i) v h = omega (arith, sum-set xs i v (omega arith))

pub sum-replicate : (n : ℕ) → sum (replicate n 0) ≡ 0
unfolding sum
sum-replicate zero = refl
sum-replicate (suc n) = omega (arith, sum-replicate n)

pub length-prefix_sums : (s : ℕ) (cs : List ℕ) → length (prefix_sums s cs) ≡ length cs
unfolding prefix_sums
length-prefix_sums s [] = refl
length-prefix_sums s (c ∷ cs) = ap suc (length-prefix_sums ((s + c) % 2 ^ 32) cs)

-- Without a wrap: no sum is above the last one, and each is the one before it and its count.
pub prefix_sums-le :
    (s : ℕ) (cs : List ℕ) (i : ℕ) → s + sum cs < 2 ^ 32 → at (prefix_sums s cs) i ≤ s + sum cs
unfolding prefix_sums sum
prefix_sums-le s [] i h = omega arith
prefix_sums-le s (c ∷ cs) zero h = omega arith
prefix_sums-le s (c ∷ cs) (suc i) h =
    let next : (s + c) % 2 ^ 32 ≡ s + c = omega arith in
    rw next (omega (arith, prefix_sums-le (s + c) cs i (omega arith)))

prefix_sums-cons :
    (s c : ℕ) (cs : List ℕ)
    → s + c < 2 ^ 32
    → prefix_sums s (c ∷ cs) ≡ ((s + c) ∷ prefix_sums (s + c) cs)
unfolding prefix_sums
prefix_sums-cons s c cs h = let next : (s + c) % 2 ^ 32 ≡ s + c = omega arith in rw next refl

prefix_sums-first : (s c : ℕ) (cs : List ℕ) → s + c < 2 ^ 32 → at (prefix_sums s (c ∷ cs)) 0 ≡ s + c
unfolding prefix_sums
prefix_sums-first s c cs h = omega arith

pub prefix_sums-step :
    (s : ℕ) (cs : List ℕ) (i : ℕ)
    → s + sum cs < 2 ^ 32
    → suc i < length cs
    → at (prefix_sums s cs) (suc i) ≡ at (prefix_sums s cs) i + at cs (suc i)
unfolding sum
prefix_sums-step s [] i h k = absurd (omega arith)
prefix_sums-step s (c ∷ []) i h k = absurd (omega arith)
prefix_sums-step s (c ∷ (d ∷ cs)) zero h k =
    rw (prefix_sums-cons s c (d ∷ cs) (omega arith)) (prefix_sums-first (s + c) d cs (omega arith))
prefix_sums-step s (c ∷ (d ∷ cs)) (suc i) h k =
    rw (prefix_sums-cons s c (d ∷ cs) (omega arith))
      (prefix_sums-step (s + c) (d ∷ cs) i (omega arith) (omega arith))
