-- ===== src/Release/Blob/Places.antt =====
-- Arithmetic of frames, and where they stand in the object.
use go_binsync.Prelude.{
  ℕ, zero, suc, ◌+◌, ◌-◌, ◌*◌, ◌≤◌, ◌≡◌, refl, sym, ap, ◌∙◌, max, List, [], ◌∷◌, ◌++◌, length, take,
  drop, slice, arith, take-append, drop-append, append-nil, append_assoc, ◌⊎◌, inl, inr,
}
use go_binsync.Release.Pointer.{Frame}
use go_binsync.Release.Blob.{lay_out}

pub mul_suc : (i frame : ℕ) → (i + 1) * frame ≡ i * frame + frame
mul_suc i frame = omega arith

pub mul_add : (i k frame : ℕ) → (i + suc k) * frame ≡ i * frame + frame + k * frame
mul_add i k frame = omega arith

pub le_mul : (k frame : ℕ) → 1 ≤ k → frame ≤ k * frame
le_mul zero frame h = absurd (omega arith)
le_mul (suc k) frame h = omega arith

pub max-cases : (q : ℕ) → ((max q 1 ≡ q) × (1 ≤ q)) ⊎ ((max q 1 ≡ 1) × (q ≡ 0))
max-cases zero = inr (omega arith, refl)
max-cases (suc q) = inl (omega arith, omega arith)

pub slice_empty : (lo hi : ℕ) (xs : List ℕ) → hi ≤ lo → slice lo hi xs ≡ []
slice_empty lo hi xs h = ap (λ (n : ℕ). take n (drop lo xs)) {y = 0} (omega arith)

pub slice-middle : (a z t : List ℕ) → slice (length a) (length a + length z) ((a ++ z) ++ t) ≡ z
slice-middle a z t =
    rw (append_assoc a z t, drop-append a (z ++ t) (length a) refl)
      (take-append z t (length a + length z - length a) (omega arith))

pub lay_out-extends :
    (out : List ℕ) (l : List (Frame × List ℕ)) → (tail : List ℕ) × ((lay_out out l).1 ≡ out ++ tail)
unfolding lay_out
lay_out-extends out [] = ([], sym (append-nil out))
lay_out-extends out ((f, z) ∷ rest) =
    let (tail, e) = lay_out-extends (out ++ z) rest in (z ++ tail, e ∙ append_assoc out z tail)
