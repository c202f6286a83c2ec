-- ===== src/Delta/Correct/RoundTrip/Patched.antt =====
-- The buffer between two regions: the file up to a place, and the prediction from there on.
use go_binsync.Prelude.{
  ℕ, zero, suc, ◌+◌, ◌-◌, ◌≤◌, ◌<◌, ◌≡◌, refl, ap, ◌∙◌, sym, List, [], ◌∷◌, ◌++◌, length, take,
  drop, slice, overwrite, arith, length-append, length-take, length-drop, length-take_le,
  take-append, drop-append, take-slice, drop-slice, drop-drop, append_assoc, take-length_le,
  drop-length_le, append-nil, length-slice,
}
use go_binsync.Delta.Lz.Match.{at}

-- The two buffers agree on [a, b).
abbrev pub Agree : List ℕ → List ℕ → ℕ → ℕ → Type 0
Agree pred want a b = (i : ℕ) → a ≤ i → i < b → at pred i ≡ at want i

pub patched : List ℕ → List ℕ → ℕ → List ℕ
patched pred want e = take e want ++ drop e pred

eq_of_at :
    (xs ys : List ℕ)
    → length xs ≡ length ys
    → ((i : ℕ) → i < length xs → at xs i ≡ at ys i)
    → xs ≡ ys
eq_of_at [] [] h f = refl
eq_of_at [] (y ∷ ys) h f = absurd (omega arith)
eq_of_at (x ∷ xs) [] h f = absurd (omega arith)
eq_of_at (x ∷ xs) (y ∷ ys) h f =
    cc (f 0 (omega arith), eq_of_at xs ys (omega arith) (λ i k. f (suc i) (omega arith)))

at-drop : (n i : ℕ) (xs : List ℕ) → at (drop n xs) i ≡ at xs (n + i)
at-drop zero i xs = ap (at xs) {x = i} (omega arith)
at-drop (suc n) i [] = refl
at-drop (suc n) i (x ∷ xs) =
    at-drop n i xs ∙ ap (at (x ∷ xs)) {x = suc (n + i)} {y = suc n + i} (omega arith)

at-take : (n i : ℕ) (xs : List ℕ) → i < n → at (take n xs) i ≡ at xs i
at-take zero i xs h = absurd (omega arith)
at-take (suc n) i [] h = refl
at-take (suc n) zero (x ∷ xs) h = refl
at-take (suc n) (suc i) (x ∷ xs) h = at-take n i xs (omega arith)

slice_eq :
    (pred want : List ℕ) (a b : ℕ)
    → length pred ≡ length want
    → a ≤ b
    → b ≤ length want
    → Agree pred want a b
    → slice a b pred ≡ slice a b want
slice_eq pred want a b e h k f =
    eq_of_at (slice a b pred) (slice a b want)
      (omega (arith, length-slice a b pred, length-slice a b want))
      λ i lt.
        at-take (b - a) i (drop a pred) (omega (arith, length-slice a b pred))
        ∙ at-drop a i pred
        ∙ f (a + i) (omega arith) (omega (arith, length-slice a b pred))
        ∙ sym (at-drop a i want)
        ∙ sym (at-take (b - a) i (drop a want) (omega (arith, length-slice a b pred)))

module _ (pred want : List ℕ) (same : length pred ≡ length want) where
  pub length-patched : (e : ℕ) → e ≤ length want → length (patched pred want e) ≡ length want
  unfolding patched
  length-patched e h =
      omega
        (arith, length-append (take e want) (drop e pred), length-take e want, length-drop e pred)

  pub patched_start : patched pred want 0 ≡ pred
  unfolding patched
  patched_start = refl

  -- Where the two agree, the place may be moved on.
  pub patched-Agree :
      (a b : ℕ)
      → a ≤ b
      → b ≤ length want
      → Agree pred want a b
      → patched pred want a ≡ patched pred want b
  unfolding patched
  patched-Agree a b h k f =
      ap (λ t. take a want ++ t) (sym (drop-slice a b pred h))
      ∙ ap (λ t. take a want ++ (t ++ drop b pred)) (slice_eq pred want a b same h k f)
      ∙ sym (append_assoc (take a want) (slice a b want) (drop b pred))
      ∙ ap (λ t. t ++ drop b pred) (take-slice a b want h)

  pub drop-patched : (e : ℕ) → e ≤ length want → drop e (patched pred want e) ≡ drop e pred
  unfolding patched
  drop-patched e h =
      drop-append (take e want) (drop e pred) e (omega (arith, length-take_le e want))

  -- A region of the file written over the buffer.
  pub overwrite-patched :
      (s e : ℕ)
      → s ≤ e
      → e ≤ length want
      → overwrite s (slice s e want) (patched pred want s) ≡ patched pred want e
  overwrite-patched s e h k =
      ap (λ t. t ++ (slice s e want ++ drop (s + length (slice s e want)) (patched pred want s)))
        front
      ∙ ap (λ t. take s want ++ (slice s e want ++ t)) back
      ∙ sym (append_assoc (take s want) (slice s e want) (drop e pred))
      ∙ ap (λ t. t ++ drop e pred) (take-slice s e want h)
      ∙ (unfold patched in refl)
    where
      front : take s (patched pred want s) ≡ take s want
      front =
          unfold patched in
          take-append (take s want) (drop s pred) s (omega (arith, length-take_le s want))

      back : drop (s + length (slice s e want)) (patched pred want s) ≡ drop e pred
      back =
          ap (λ (t : ℕ). drop t (patched pred want s)) {y = s + (e - s)}
            (omega (arith, length-slice s e want))
          ∙ sym (drop-drop s (e - s) (patched pred want s))
          ∙ ap (drop (e - s)) (drop-patched s (omega arith))
          ∙ drop-drop s (e - s) pred
          ∙ ap (λ (t : ℕ). drop t pred) {x = s + (e - s)} {y = e} (omega arith)

  pub patched_end : patched pred want (length want) ≡ want
  unfolding patched
  patched_end =
      ap (λ t. take (length want) want ++ t) (drop-length_le (length want) pred (omega arith))
      ∙ append-nil (take (length want) want)
      ∙ take-length_le (length want) want (omega arith)
