-- ===== src/Release/Plan/Cheapest.antt =====
-- What MakePlan chooses, by the sizes of the edges as numbers.
use go_binsync.Prelude.{
  ℕ, ◌+◌, ◌*◌, ◌%◌, ◌^◌, ◌≤◌, ◌<◌, ◌≡◌, ◌≢◌, refl, ◌∙◌, sym, true, false, List, [], ◌∷◌, Option,
  none, some, ok, ◌⊎◌, inl, inr, length, length-reverse, take, All, All_take, arith,
}
use mathlib.Core.Path.{subst}
use mathlib.Core.List.{reverse, reverse_aux}
use go_binsync.Int64.{add64, lt64, le64}
use go_binsync.Release.Hash.{Hash}
use go_binsync.Release.Pointer.{Pointer, Edge, Blob, max_chain, check_pointer}
use go_binsync.Release.Plan.{Plan, plan_none, plan_chain, plan_blob, sum_sizes, too_long, make_plan}
use go_binsync.Release.Plan.Right
use go_binsync.Release.Plan.Right.{Leads, Misses, make_plan-IsRight}

-- The bytes of a way.
unfoldable pub total : List Edge → ℕ
total [] = 0
total (e ∷ es) = e.size + total es

-- An edge of less than 2^59 bytes: eight of them stay below the largest int64.
abbrev pub IsSmall : Edge → Type 0
IsSmall e = e.size < 2 ^ 59

total-reverse_aux : (xs ys : List Edge) → total (reverse_aux xs ys) ≡ total xs + total ys
unfolding total
total-reverse_aux [] ys = omega arith
total-reverse_aux (x ∷ xs) ys = omega (arith, total-reverse_aux xs (x ∷ ys))

total-reverse : (xs : List Edge) → total (reverse xs) ≡ total xs
unfolding total
total-reverse xs = omega (arith, total-reverse_aux xs [])

total-IsSmall : (es : List Edge) → All IsSmall es → total es ≤ length es * 2 ^ 59
unfolding total
total-IsSmall [] h = omega arith
total-IsSmall (e ∷ es) (s, h) = omega (arith, total-IsSmall es h)

sum_sizes-total : (n : ℕ) (es : List Edge) → n + total es < 2 ^ 64 → sum_sizes n es ≡ n + total es
unfolding sum_sizes total add64
sum_sizes-total n [] h = omega arith
sum_sizes-total n (e ∷ es) h =
    let step : (n + e.size) % 2 ^ 64 ≡ n + e.size = omega arith in
    rw step (sum_sizes-total (n + e.size) es (omega arith) ∙ omega arith)

-- The four plans, and when each of them is made.
pub data IsCheapest (p : Pointer) (current : Hash) (plan : Plan) : Type 0 where
  here :
      current ≡ p.head.hash
      → plan.kind ≡ plan_none
      → plan.at_head ≡ true
      → IsCheapest p current plan
  chain :
      current ≢ p.head.hash
      → plan.kind ≡ plan_chain
      → Leads current plan.edges p.head.hash
      → length plan.edges ≤ max_chain
      → plan.bytes ≡ total plan.edges
      → ((b : Blob) → p.head.blob ≡ some b → total plan.edges < b.size)
      → IsCheapest p current plan
  blob :
      (b : Blob)
      → current ≢ p.head.hash
      → plan.kind ≡ plan_blob
      → p.head.blob ≡ some b
      → plan.blob ≡ some b
      → Misses current (take max_chain p.chain)
        ⊎ ((edges : List Edge) × Leads current edges p.head.hash
            × (reverse edges ≡ take (length edges) p.chain)
            × (b.size ≤ total edges))
      → IsCheapest p current plan
  nothing :
      current ≢ p.head.hash
      → plan.kind ≡ plan_none
      → plan.at_head ≡ false
      → p.head.blob ≡ none
      → Misses current (take max_chain p.chain)
      → IsCheapest p current plan

module _ (p : Pointer) (small : All IsSmall p.chain)
    (blob_small : (b : Blob) → p.head.blob ≡ some b → b.size < 2 ^ 63) where
  -- The sum of a way that is the front of the chain does not wrap.
  way :
      (edges : List Edge)
      → length edges ≤ max_chain
      → reverse edges ≡ take (length edges) p.chain
      → (sum_sizes 0 (reverse edges) ≡ total edges) × (total edges < 2 ^ 63)
  way edges few front =
      let all : All IsSmall (reverse edges) =
        subst (All IsSmall) (sym front) (All_take IsSmall (length edges) p.chain small) in
      let bound = total-IsSmall (reverse edges) all in
      let same = total-reverse edges in
      let count = length-reverse edges in
      (
        omega (arith, sum_sizes-total 0 (reverse edges) (omega (arith, bound, same, count)), same),
        omega (arith, bound, same, count),
      )

  below :
      (o : Option Blob) (n : ℕ)
      → p.head.blob ≡ o
      → n < 2 ^ 63
      → too_long o n ≡ false
      → (b : Blob) → p.head.blob ≡ some b
      → n < b.size
  unfolding too_long le64 lt64
  below none n e lt h b k = absurd (cc (e, k))
  below (some c) n e lt h b k =
      let same : c ≡ b = some_inj (sym e ∙ k) in
      subst (λ (x : Blob). n < x.size) same (ground (arith, h, blob_small c e, lt))
    where
      some_inj : {x y : Blob} → some x ≡ some y → x ≡ y
      some_inj h = cc

  above :
      (b : Blob) (n : ℕ) → b.size < 2 ^ 63 → n < 2 ^ 63 → too_long (some b) n ≡ true → b.size ≤ n
  unfolding too_long le64 lt64
  above b n small_b lt h = ground arith

  cheapest :
      (current : Hash) (plan : Plan) → Right.IsRight p current plan → IsCheapest p current plan
  cheapest current plan (Right.here at_head kind flag) = here at_head kind flag
  cheapest current plan (Right.chain away kind leads few front bytes cheap) =
      let (sum, bound) = way plan.edges few front in
      let whole : plan.bytes ≡ total plan.edges = bytes ∙ sum in
      chain away kind leads few whole (
        below p.head.blob (total plan.edges) refl bound
          (subst (λ (n : ℕ). too_long p.head.blob n ≡ false) whole cheap))
  cheapest current plan (Right.blob b away kind at_blob planned (inl misses)) =
      blob b away kind at_blob planned (inl misses)
  cheapest current plan
        (Right.blob b away kind at_blob planned (inr (edges, leads, few, front, long))) =
      let (sum, bound) = way edges few front in
      blob b away kind at_blob planned (
        inr (
          edges,
          leads,
          front,
          above b (total edges) (blob_small b at_blob) bound
              (subst (λ (n : ℕ). too_long (some b) n ≡ true) sum long),
        ))
  cheapest current plan (Right.nothing away kind flag no_blob misses) =
      nothing away kind flag no_blob misses

  -- For a pointer that ParsePointer accepts, with edges below 2^59 bytes and a blob below 2^63, MakePlan
  -- answers: at the head; or edges that lead from the target's release to the head, at most MaxChain of
  -- them and with fewer bytes in all than the blob, if there is one; or the blob, where none of the newest
  -- MaxChain edges starts at the target's release, or the newest edges lead from there and have as many
  -- bytes as the blob or more; or nothing, where there is no such edge and no blob.
  pub make_plan-IsCheapest :
      (q : Pointer) (current : Hash)
      → check_pointer p ≡ ok q
      → IsCheapest p current (make_plan p current)
  make_plan-IsCheapest q current accepted =
      cheapest current (make_plan p current) (make_plan-IsRight p q current accepted)
