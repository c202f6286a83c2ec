-- ===== src/Agent/Frames/Arrived/Queue.antt =====
-- The frames in the channel and in hand, as lists of indices.
use go_binsync.Prelude.{
  ℕ, zero, suc, ◌+◌, ◌≡◌, ◌≢◌, ◌<◌, ◌⊎◌, inl, inr, refl, Bool, true, false, List, [], ◌∷◌, some,
  length, get_elem?, arith,
}
use mathlib.Core.Path.{subst}
use go_binsync.Agent.Frames.{absent, without, contains}

pub contains-without :
    (i j : ℕ) (js : List ℕ) → contains i js ≡ true → (i ≡ j) ⊎ (contains i (without j js) ≡ true)
unfolding contains without
contains-without i j [] h = inr h
contains-without i j (x ∷ js) h = ground (arith, contains-without i j js)

pub contains-head :
    (i j : ℕ) (js : List ℕ) → contains i (j ∷ js) ≡ true → (i ≡ j) ⊎ (contains i js ≡ true)
unfolding contains
contains-head i j js h = ground arith

pub contains_self : (i : ℕ) (js : List ℕ) → contains i (i ∷ js) ≡ true
unfolding contains
contains_self i js = ground arith

pub contains_tail : (i j : ℕ) (js : List ℕ) → contains i js ≡ true → contains i (j ∷ js) ≡ true
unfolding contains
contains_tail i j js h = ground arith

-- A frame is in hand or in the channel of a new pass.
pub contains-absent :
    (n i : ℕ) (have : List Bool)
    → i < length have
    → (get_elem? have i ≡ some true) ⊎ (contains (n + i) (absent n have) ≡ true)
unfolding contains absent
contains-absent n i [] h = absurd (omega arith)
contains-absent n zero (true ∷ have) h = inl refl
contains-absent n zero (false ∷ have) h = inr (ground arith)
contains-absent n (suc i) (true ∷ have) h = elim (contains-absent (n + 1) i have (omega arith)) [
  | inl here ↦ inl here
  | inr more ↦ inr (
      subst (λ (m : ℕ). contains m (absent (n + 1) have) ≡ true) {x = n + 1 + i} (omega arith) more)
]
contains-absent n (suc i) (false ∷ have) h = elim (contains-absent (n + 1) i have (omega arith)) [
  | inl here ↦ inl here
  | inr more ↦ inr (
      contains_tail (n + suc i) n (absent (n + 1) have) (
        subst (λ (m : ℕ). contains m (absent (n + 1) have) ≡ true) {x = n + 1 + i} (omega arith)
          more))
]

pub none_in : (i : ℕ) (js : List ℕ) → contains i js ≡ true → js ≢ []
unfolding contains
none_in i [] h e = cc
none_in i (j ∷ js) h e = cc

pub get_elem?-lt {ℓ} :
    {A : Type ℓ} (xs : List A) (i : ℕ) {x : A} → get_elem? xs i ≡ some x → i < length xs
get_elem?-lt [] i h = absurd (cc)
get_elem?-lt (y ∷ xs) zero h = omega arith
get_elem?-lt (y ∷ xs) (suc i) h = omega (arith, get_elem?-lt xs i h)
