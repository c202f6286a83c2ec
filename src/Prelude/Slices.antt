-- ===== src/Prelude/Slices.antt =====
-- Go's slices as lists: `xs[lo:hi]` of a range that lies inside `xs`, and the laws by which ranges
-- are cut and joined.
use Prim.Native.Nat.{ℕ, zero, suc, ◌+◌, ◌-◌, ◌≤◌}
use mathlib.Core.Path.{◌≡◌, refl, sym, ap, ◌∙◌}
use mathlib.Core.List.{List, [], ◌∷◌, ◌++◌}
use native.Mathlib.Omega.{arith}
use go_binsync.Prelude.Lists.{length, take, drop, length-take, length-drop, take-append-drop}

module _ {ℓ} {A : Type ℓ} where
  -- xs[lo:hi]
  abbrev pub slice : ℕ → ℕ → List A → List A
  slice lo hi xs = take (hi - lo) (drop lo xs)

  -- copy(xs[at:], ys), where `ys` fits.
  abbrev pub overwrite : ℕ → List A → List A → List A
  overwrite at ys xs = take at xs ++ (ys ++ drop (at + length ys) xs)

  pub take-length_le : (n : ℕ) (xs : List A) → length xs ≤ n → take n xs ≡ xs
  take-length_le zero [] h = refl
  take-length_le zero (x ∷ xs) h = absurd (omega arith)
  take-length_le (suc n) [] h = refl
  take-length_le (suc n) (x ∷ xs) h = ap (λ t. x ∷ t) (take-length_le n xs (omega arith))

  pub drop-length_le : (n : ℕ) (xs : List A) → length xs ≤ n → drop n xs ≡ []
  drop-length_le zero [] h = refl
  drop-length_le zero (x ∷ xs) h = absurd (omega arith)
  drop-length_le (suc n) [] h = refl
  drop-length_le (suc n) (x ∷ xs) h = drop-length_le n xs (omega arith)

  pub take-append : (xs ys : List A) (n : ℕ) → n ≡ length xs → take n (xs ++ ys) ≡ xs
  take-append [] ys zero h = refl
  take-append [] ys (suc n) h = absurd (omega arith)
  take-append (x ∷ xs) ys zero h = absurd (omega arith)
  take-append (x ∷ xs) ys (suc n) h = ap (λ t. x ∷ t) (take-append xs ys n (omega arith))

  pub drop-append : (xs ys : List A) (n : ℕ) → n ≡ length xs → drop n (xs ++ ys) ≡ ys
  drop-append [] ys zero h = refl
  drop-append [] ys (suc n) h = absurd (omega arith)
  drop-append (x ∷ xs) ys zero h = absurd (omega arith)
  drop-append (x ∷ xs) ys (suc n) h = drop-append xs ys n (omega arith)

  pub take-nil : (n : ℕ) → take {A = A} n [] ≡ []
  take-nil zero = refl
  take-nil (suc n) = refl

  pub drop-nil : (n : ℕ) → drop {A = A} n [] ≡ []
  drop-nil zero = refl
  drop-nil (suc n) = refl

  pub take-add : (n m : ℕ) (xs : List A) → take n xs ++ take m (drop n xs) ≡ take (n + m) xs
  take-add zero m xs = ap (λ (t : ℕ). take t xs) (omega arith)
  take-add (suc n) m [] = take-nil m ∙ sym (take-nil (suc n + m))
  take-add (suc n) m (x ∷ xs) =
      ap (λ t. x ∷ t) (take-add n m xs)
      ∙ ap (λ (t : ℕ). take t (x ∷ xs)) {x = suc (n + m)} (omega arith)

  pub drop-drop : (n m : ℕ) (xs : List A) → drop m (drop n xs) ≡ drop (n + m) xs
  drop-drop zero m xs = ap (λ (t : ℕ). drop t xs) (omega arith)
  drop-drop (suc n) m [] = drop-nil m ∙ sym (drop-nil (suc n + m))
  drop-drop (suc n) m (x ∷ xs) =
      drop-drop n m xs ∙ ap (λ (t : ℕ). drop t (x ∷ xs)) {x = suc (n + m)} (omega arith)

  -- xs[:lo] and xs[lo:hi] together are xs[:hi].
  pub take-slice : (lo hi : ℕ) (xs : List A) → lo ≤ hi → take lo xs ++ slice lo hi xs ≡ take hi xs
  take-slice lo hi xs h =
      take-add lo (hi - lo) xs ∙ ap (λ (t : ℕ). take t xs) {x = lo + (hi - lo)} (omega arith)

  pub length-slice :
      (lo hi : ℕ) (xs : List A) → lo ≤ hi → hi ≤ length xs → length (slice lo hi xs) ≡ hi - lo
  length-slice lo hi xs h k = omega (arith, length-take (hi - lo) (drop lo xs), length-drop lo xs)

  pub length-take_le : (n : ℕ) (xs : List A) → n ≤ length xs → length (take n xs) ≡ n
  length-take_le n xs h = omega (arith, length-take n xs)

  -- xs[lo:mid] and xs[mid:hi] together are xs[lo:hi].
  pub slice-slice :
      (lo mid hi : ℕ) (xs : List A)
      → lo ≤ mid
      → mid ≤ hi
      → slice lo mid xs ++ slice mid hi xs ≡ slice lo hi xs
  slice-slice lo mid hi xs h k =
      ap (λ t. slice lo mid xs ++ take (hi - mid) t)
        (ap (λ (t : ℕ). drop t xs) {x = mid} (omega arith) ∙ sym (drop-drop lo (mid - lo) xs))
      ∙ take-add (mid - lo) (hi - mid) (drop lo xs)
      ∙ ap (λ (t : ℕ). take t (drop lo xs)) {x = mid - lo + (hi - mid)} (omega arith)

  pub drop-slice : (lo hi : ℕ) (xs : List A) → lo ≤ hi → slice lo hi xs ++ drop hi xs ≡ drop lo xs
  drop-slice lo hi xs h =
      ap (λ t. slice lo hi xs ++ t)
        (ap (λ (t : ℕ). drop t xs) {x = hi} (omega arith) ∙ sym (drop-drop lo (hi - lo) xs))
      ∙ take-append-drop (hi - lo) (drop lo xs)

  -- A range that starts behind `a`.
  pub slice-append : (a ys : List A) (n : ℕ) → slice (length a) (length a + n) (a ++ ys) ≡ take n ys
  slice-append a ys n =
      ap (λ t. take (length a + n - length a) t) (drop-append a ys (length a) refl)
      ∙ ap (λ (k : ℕ). take k ys) {x = length a + n - length a} (omega arith)

  pub overwrite-append :
      (a zs ys : List A) → overwrite (length a) zs (a ++ ys) ≡ a ++ (zs ++ drop (length zs) ys)
  overwrite-append a zs ys =
      ap (λ t. t ++ (zs ++ drop (length a + length zs) (a ++ ys)))
        (take-append a ys (length a) refl)
      ∙ ap (λ t. a ++ (zs ++ t))
          (sym (drop-drop (length a) (length zs) (a ++ ys))
            ∙ ap (drop (length zs)) (drop-append a ys (length a) refl))
