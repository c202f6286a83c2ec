-- ===== src/Delta/Shifttab/Mapping.antt =====
-- Map takes the delta of the last offset that is not above its argument.
use go_binsync.Prelude.{
  ℕ, zero, suc, ◌-◌, ◌≤◌, ◌<◌, ◌≡◌, refl, ◌||◌, true, false, Bool, ltb, ◌==◌, List, [], ◌∷◌, Option,
  none, some, ok, get_or, length, if◌then◌else◌, arith,
}
use go_binsync.Int64.{add64}
use go_binsync.Delta.Shifttab.{ShiftTable, nth, shifted, map_off}

-- What sort.Search documents: the smallest index at which a test holds that goes on holding, or `n`.
pub record IsSearch (search : ℕ → (ℕ → Bool) → ℕ) : Type 0 where
  pub finds :
      (n : ℕ) (f : ℕ → Bool)
      → ((i j : ℕ) → i ≤ j → j < n → f i ≡ true → f j ≡ true)
      → (search n f ≤ n)
        × ((i : ℕ) → i < search n f → f i ≡ false)
        × (search n f < n → f (search n f) ≡ true)

-- The delta of the last offset up to `off`.
unfoldable pub last_delta : List ℕ → List ℕ → ℕ → Option ℕ → Option ℕ
last_delta [] deltas off found = found
last_delta (o ∷ offs) [] off found = found
last_delta (o ∷ offs) (d ∷ deltas) off found =
    let rest = last_delta offs deltas off (some d) in if ltb off o then found else rest

abbrev pub moved : ℕ → Option ℕ → ℕ
moved off none = off
moved off (some d) = add64 off d

pick : ℕ → List ℕ → Option ℕ → Option ℕ
pick zero ds found = found
pick (suc k) [] found = none
pick (suc k) (d ∷ ds) found = pick k ds (some d)

pick-nth : (k : ℕ) (ds : List ℕ) (found : Option ℕ) → pick (suc k) ds found ≡ nth k ds
unfolding pick nth
pick-nth zero [] found = refl
pick-nth zero (d ∷ ds) found = refl
pick-nth (suc k) [] found = refl
pick-nth (suc k) (d ∷ ds) found = pick-nth k ds (some d)

nth_some : (k : ℕ) (ds : List ℕ) → k < length ds → (x : ℕ) × (nth k ds ≡ some x)
unfolding nth
nth_some k [] h = absurd (omega arith)
nth_some zero (d ∷ ds) h = (d, refl)
nth_some (suc k) (d ∷ ds) h = nth_some k ds (omega arith)

last_delta-pick :
    (offs deltas : List ℕ) (off k : ℕ) (found : Option ℕ)
    → length offs ≡ length deltas
    → k ≤ length offs
    → ((i : ℕ) → i < k → ltb off (get_or offs i 0) ≡ false)
    → (k < length offs → ltb off (get_or offs k 0) ≡ true)
    → last_delta offs deltas off found ≡ pick k deltas found
unfolding last_delta pick
last_delta-pick [] [] off zero found same le below above = refl
last_delta-pick [] [] off (suc k) found same le below above = absurd (omega arith)
last_delta-pick [] (d ∷ deltas) off k found same le below above = absurd (omega arith)
last_delta-pick (o ∷ offs) [] off k found same le below above = absurd (omega arith)
last_delta-pick (o ∷ offs) (d ∷ deltas) off zero found same le below above =
    rw (above (omega arith)) refl
last_delta-pick (o ∷ offs) (d ∷ deltas) off (suc k) found same le below above =
    rw (below 0 (omega arith)) (
      last_delta-pick offs deltas off k (some d) (omega arith) (omega arith)
        (λ i h. below (suc i) (omega arith)) (λ h. above (omega arith)))

-- For a search that does what it documents, and offsets that do not fall, as many as deltas: Map adds to
-- its argument the delta of the last offset that is not above it, and leaves it where there is none.
pub map_off-last :
    (search : ℕ → (ℕ → Bool) → ℕ) (t : ShiftTable) (off : ℕ)
    → IsSearch search
    → length t.offs ≡ length t.deltas
    → ((i j : ℕ) → i ≤ j → j < length t.offs → get_or t.offs i 0 ≤ get_or t.offs j 0)
    → map_off search (some t) off ≡ ok (moved off (last_delta t.offs t.deltas off none))
unfolding map_off
map_off-last search t off right same ascending =
    let f : ℕ → Bool = λ i. ltb off (get_or t.offs i 0) in
    let (le, below, above) =
      right.finds (length t.offs) f (λ i j h k e. goes_on (ascending i j h k) e) in
    let picked =
      last_delta-pick t.offs t.deltas off (search (length t.offs) f) none same le below above in
    rw picked (by_index (search (length t.offs) f) le)
  where
    goes_on : {a b : ℕ} → a ≤ b → ltb off a ≡ true → ltb off b ≡ true
    goes_on {a} {b} h e = ground arith

    by_index :
        (k : ℕ)
        → k ≤ length t.offs
        → (if length t.offs == 0 || k == 0 then ok off else shifted off (nth (k - 1) t.deltas))
          ≡ ok (moved off (pick k t.deltas none))
    by_index zero h =
        let at_start : (length t.offs == 0 || 0 == 0) ≡ true = ground arith in
        rw at_start (unfold pick in refl)
    by_index (suc k) h =
        let inside : (length t.offs == 0 || suc k == 0) ≡ false = ground arith in
        let one_less : suc k - 1 ≡ k = omega arith in
        let (x, e) = nth_some k t.deltas (omega arith) in
        rw (inside, one_less, pick-nth k t.deltas none, e) refl
