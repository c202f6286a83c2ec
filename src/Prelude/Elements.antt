-- ===== src/Prelude/Elements.antt =====
-- The elements of lists that are cut and written over.
use Prim.Native.Nat.{ℕ, zero, suc, ◌+◌, ◌-◌, ◌≤◌, ◌<◌}
use mathlib.Core.Path.{◌≡◌, refl, ap, ◌∙◌}
use mathlib.Core.Option.{some}
use mathlib.Core.List.{List, [], ◌∷◌, ◌++◌}
use native.Mathlib.Omega.{arith}
use go_binsync.Prelude.Lists.{
  length, take, drop, get_elem?, length-append, length-take, length-drop,
}
use go_binsync.Prelude.Slices.{slice, overwrite}

module _ {ℓ} {A : Type ℓ} where
  pub get_elem?-take :
      (n : ℕ) (xs : List A) (k : ℕ) → k < n → get_elem? (take n xs) k ≡ get_elem? xs k
  get_elem?-take zero xs k h = absurd (omega arith)
  get_elem?-take (suc n) [] k h = refl
  get_elem?-take (suc n) (x ∷ xs) zero h = refl
  get_elem?-take (suc n) (x ∷ xs) (suc k) h = get_elem?-take n xs k (omega arith)

  pub get_elem?-drop :
      (n : ℕ) (xs : List A) (k : ℕ) → get_elem? (drop n xs) k ≡ get_elem? xs (n + k)
  get_elem?-drop zero xs k = ap (λ (t : ℕ). get_elem? xs t) (omega arith)
  get_elem?-drop (suc n) [] k = refl
  get_elem?-drop (suc n) (x ∷ xs) k =
      get_elem?-drop n xs k ∙ ap (λ (t : ℕ). get_elem? (x ∷ xs) t) {x = suc (n + k)} (omega arith)

  pub get_elem?-slice :
      (lo hi : ℕ) (xs : List A) (k : ℕ)
      → lo + k < hi
      → get_elem? (slice lo hi xs) k ≡ get_elem? xs (lo + k)
  get_elem?-slice lo hi xs k h =
      get_elem?-take (hi - lo) (drop lo xs) k (omega arith) ∙ get_elem?-drop lo xs k

  pub get_elem?-append_left :
      (xs ys : List A) (k : ℕ) → k < length xs → get_elem? (xs ++ ys) k ≡ get_elem? xs k
  get_elem?-append_left [] ys k h = absurd (omega arith)
  get_elem?-append_left (x ∷ xs) ys zero h = refl
  get_elem?-append_left (x ∷ xs) ys (suc k) h = get_elem?-append_left xs ys k (omega arith)

  pub get_elem?-append_right :
      (xs ys : List A) (k : ℕ)
      → length xs ≤ k
      → get_elem? (xs ++ ys) k ≡ get_elem? ys (k - length xs)
  get_elem?-append_right [] ys k h = ap (λ (t : ℕ). get_elem? ys t) {x = k} (omega arith)
  get_elem?-append_right (x ∷ xs) ys zero h = absurd (omega arith)
  get_elem?-append_right (x ∷ xs) ys (suc k) h =
      get_elem?-append_right xs ys k (omega arith)
      ∙ ap (λ (t : ℕ). get_elem? ys t) {x = k - length xs} (omega arith)

  module _ (at : ℕ) (ys xs : List A) (inside : at + length ys ≤ length xs) where
    length_front : length (take at xs) ≡ at
    length_front = omega (arith, length-take at xs)

    pub length-overwrite_in : length (overwrite at ys xs) ≡ length xs
    length-overwrite_in = omega (
      arith,
      length-append (take at xs) (ys ++ drop (at + length ys) xs),
      length-append ys (drop (at + length ys) xs),
      length-drop (at + length ys) xs,
      length_front,
    )

    pub get_elem?-overwrite_in :
        (k : ℕ)
        → at ≤ k
        → k < at + length ys
        → get_elem? (overwrite at ys xs) k ≡ get_elem? ys (k - at)
    get_elem?-overwrite_in k h l =
        get_elem?-append_right (take at xs) (ys ++ drop (at + length ys) xs) k
          (omega (arith, length_front))
        ∙ get_elem?-append_left ys (drop (at + length ys) xs) (k - length (take at xs))
            (omega (arith, length_front))
        ∙ ap (λ (t : ℕ). get_elem? ys (k - t)) length_front

    pub get_elem?-overwrite_below :
        (k : ℕ) → k < at → get_elem? (overwrite at ys xs) k ≡ get_elem? xs k
    get_elem?-overwrite_below k h =
        get_elem?-append_left (take at xs) (ys ++ drop (at + length ys) xs) k
          (omega (arith, length_front))
        ∙ get_elem?-take at xs k h

    pub get_elem?-overwrite_above :
        (k : ℕ) → at + length ys ≤ k → get_elem? (overwrite at ys xs) k ≡ get_elem? xs k
    get_elem?-overwrite_above k h =
        get_elem?-append_right (take at xs) (ys ++ drop (at + length ys) xs) k
          (omega (arith, length_front))
        ∙ get_elem?-append_right ys (drop (at + length ys) xs) (k - length (take at xs))
            (omega (arith, length_front))
        ∙ get_elem?-drop (at + length ys) xs (k - length (take at xs) - length ys)
        ∙ ap (λ (t : ℕ). get_elem? xs t) {y = k} (omega (arith, length_front))

  pub same_elements :
      (xs ys : List A)
      → length xs ≡ length ys
      → ((k : ℕ) → k < length ys → get_elem? xs k ≡ get_elem? ys k)
      → xs ≡ ys
  same_elements [] [] h k = refl
  same_elements [] (y ∷ ys) h k = absurd (omega arith)
  same_elements (x ∷ xs) [] h k = absurd (omega arith)
  same_elements (x ∷ xs) (y ∷ ys) h k =
      let head : x ≡ y = some_inj (k 0 (omega arith)) in
      let tail = same_elements xs ys (omega arith) (λ i l. k (suc i) (omega arith)) in cc
    where
      some_inj : some x ≡ some y → x ≡ y
      some_inj e = cc
