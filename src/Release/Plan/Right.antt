-- ===== src/Release/Plan/Right.antt =====
-- MakePlan on a pointer that ParsePointer accepts.
use go_binsync.Prelude.{
  ℕ, zero, suc, ◌+◌, ◌≤◌, ◌≡◌, ◌≢◌, refl, ap, ◌∙◌, sym, true, false, List, [], ◌∷◌, ◌++◌, Option,
  none, some, Result, ok, err, panic, stuck, length-reverse, ◌⊎◌, inl, inr, ◌>>=◌, length, take,
  All, arith, Bool-cases, length-append, append_assoc, append-nil, take-append, take-length_le,
  All-snoc,
}
use mathlib.Core.Path.{subst}
use mathlib.Core.List.{reverse, reverse-append, reverse-reverse}
use go_binsync.Release.Hash.{Hash, bytes_eq}
use go_binsync.Release.Hash.RoundTrip.{bytes_eq_iff}
use go_binsync.Release.Pointer.{
  Pointer, PointerError, Edge, Blob, max_chain, check_links, check_chain, check_pointer,
}
use go_binsync.Release.Plan.{
  Plan, plan_none, plan_chain, plan_blob, sum_sizes, blob_plan, too_long, chain_plan, find_chain,
  make_plan,
}

-- Applied in order, the edges lead from one release to the other.
abbrev pub Leads : Hash → List Edge → Hash → Type 0
Leads a [] b = a ≡ b
Leads a (e ∷ es) b = (e.source ≡ a) × Leads e.target es b

-- A chain, newest first, each edge ending where the one before it starts.
abbrev pub Links : Hash → List Edge → Type 0
Links newer [] = Unit
Links newer (e ∷ rest) = (e.target ≡ newer) × Links e.source rest

check_links-Links : (newer : Hash) (es : List Edge) → check_links newer es ≡ ok tt → Links newer es
unfolding check_links
check_links-Links newer [] h = tt
check_links-Links newer (e ∷ es) h =
    ground (arith, bytes_eq_iff e.target newer, check_links-Links e.source es)

pub check_chain-Links : (head : Hash) (es : List Edge) → check_chain head es ≡ ok tt → Links head es
unfolding check_chain
check_chain-Links head [] h = tt
check_chain-Links head (e ∷ es) h =
    ground (arith, bytes_eq_iff e.target head, check_links-Links e.source es)

check_chain_ok :
    (head : Hash) (es : List Edge) {p q : Pointer}
    → (check_chain head es >>= λ _. ok p) ≡ ok q
    → (q ≡ p) × (check_chain head es ≡ ok tt)
check_chain_ok head es {p} {q} h = go (check_chain head es) refl h
  where
    go :
        (r : Result PointerError (Unit {0}))
        → check_chain head es ≡ r
        → (r >>= λ _. ok p) ≡ ok q
        → (q ≡ p) × (check_chain head es ≡ ok tt)
    go (ok tt) e k = (cc, e)
    go (err x) e k = absurd (cc)
    go panic e k = absurd (cc)
    go stuck e k = absurd (cc)

-- ParsePointer accepts a pointer only if its chain leads to its head.
pub check_pointer-Links :
    (p q : Pointer) → check_pointer p ≡ ok q → (q ≡ p) × Links p.head.hash p.chain
unfolding check_pointer
check_pointer-Links p q h =
    let x = check_chain_ok p.head.hash p.chain {p = p} {q = q} (ground arith) in
    (x.0, check_chain-Links p.head.hash p.chain x.1)

-- No edge of the list starts at the release.
abbrev pub Misses : Hash → List Edge → Type 0
Misses current = All (λ e. e.source ≢ current)

-- The four plans, and when each of them is made.
pub data IsRight (p : Pointer) (current : Hash) (plan : Plan) : Type 0 where
  here :
      current ≡ p.head.hash → plan.kind ≡ plan_none → plan.at_head ≡ true → IsRight p current plan
  chain :
      current ≢ p.head.hash
      → plan.kind ≡ plan_chain
      → Leads current plan.edges p.head.hash
      → length plan.edges ≤ max_chain
      → reverse plan.edges ≡ take (length plan.edges) p.chain
      → plan.bytes ≡ sum_sizes 0 (reverse plan.edges)
      → too_long p.head.blob plan.bytes ≡ false
      → IsRight p current plan
  blob :
      (b : Blob)
      → current ≢ p.head.hash
      → plan.kind ≡ plan_blob
      → p.head.blob ≡ some b
      → plan.blob ≡ some b
      → Misses current (take max_chain p.chain)
        ⊎ ((edges : List Edge) × Leads current edges p.head.hash
            × (length edges ≤ max_chain)
            × (reverse edges ≡ take (length edges) p.chain)
            × (too_long (some b) (sum_sizes 0 (reverse edges)) ≡ true))
      → IsRight p current plan
  nothing :
      current ≢ p.head.hash
      → plan.kind ≡ plan_none
      → plan.at_head ≡ false
      → p.head.blob ≡ none
      → Misses current (take max_chain p.chain)
      → IsRight p current plan

module _ (p : Pointer) (current : Hash) (away : current ≢ p.head.hash) where
  blob_plan-IsRight :
      (o : Option Blob)
      → p.head.blob ≡ o
      → Misses current (take max_chain p.chain)
      → IsRight p current (blob_plan p.head.hash o)
  unfolding blob_plan
  blob_plan-IsRight none e m = nothing away refl refl e m
  blob_plan-IsRight (some b) e m = blob b away refl e refl (inl m)

  chain_plan-IsRight :
      (o : Option Blob) (taken : List Edge)
      → p.head.blob ≡ o
      → Leads current (reverse taken) p.head.hash
      → length taken ≤ max_chain
      → taken ≡ take (length taken) p.chain
      → IsRight p current (chain_plan p.head.hash o taken)
  unfolding chain_plan
  chain_plan-IsRight o taken e l h front = elim (Bool-cases (too_long o (sum_sizes 0 taken))) [
    | inl long ↦ rw long (barred o e long)
    | inr short ↦ rw short (
        chain away refl l (omega (arith, length-reverse taken)) in_front
          (ap (sum_sizes 0) (sym (reverse-reverse taken))) (rw e short))
  ]
    where
      in_front : reverse (reverse taken) ≡ take (length (reverse taken)) p.chain
      in_front = rw (reverse-reverse taken, length-reverse taken) front

      barred :
          (b : Option Blob)
          → p.head.blob ≡ b
          → too_long b (sum_sizes 0 taken) ≡ true
          → IsRight p current (blob_plan p.head.hash b)
      barred none k t = absurd (unfold too_long in cc t)
      barred (some b) k t =
          unfold blob_plan in
          blob b away refl k refl (
            inr (
              reverse taken,
              l,
              omega (arith, length-reverse taken),
              in_front,
              rw reverse-reverse t,
            ))

  -- `taken` are the edges that the loop has passed, and `rest` the others.
  find_chain-IsRight :
      (n : ℕ) (o : Option Blob) (newer : Hash) (taken rest : List Edge)
      → p.head.blob ≡ o
      → p.chain ≡ taken ++ rest
      → length taken + n ≡ max_chain
      → Links newer rest
      → Leads newer (reverse taken) p.head.hash
      → Misses current taken
      → IsRight p current (find_chain n p.head.hash o current taken rest)
  unfolding find_chain
  find_chain-IsRight zero o newer taken rest e c k li le m = blob_plan-IsRight o e (
      subst (Misses current)
        (sym (ap (take max_chain) c ∙ take-append taken rest max_chain (omega arith))) m)
  find_chain-IsRight (suc n) o newer taken [] e c k li le m = blob_plan-IsRight o e (
      subst (Misses current)
        (sym (
          ap (take max_chain) (c ∙ append-nil taken)
          ∙ take-length_le max_chain taken (omega arith)))
        m)
  find_chain-IsRight (suc n) o newer taken (x ∷ rest) e c k li le m =
      elim (Bool-cases (bytes_eq x.source current)) [
        | inl found ↦ rw found (
            chain_plan-IsRight o (taken ++ (x ∷ [])) e
              (longer current ((bytes_eq_iff x.source current).0 found))
              (omega (arith, length-append taken (x ∷ []))) (front c))
        | inr other ↦ rw other (
            find_chain-IsRight n o x.source (taken ++ (x ∷ [])) rest e
              (c ∙ sym (append_assoc taken (x ∷ []) rest))
              (omega (arith, length-append taken (x ∷ []))) li.1 (longer x.source refl)
              (All-snoc (λ t. t.source ≢ current) taken x m
                (λ same. cc ((bytes_eq_iff x.source current).1 same))))
      ]
    where
      front :
          p.chain ≡ taken ++ (x ∷ rest)
          → taken ++ (x ∷ []) ≡ take (length (taken ++ (x ∷ []))) p.chain
      front h = sym (
          ap (take (length (taken ++ (x ∷ [])))) (h ∙ sym (append_assoc taken (x ∷ []) rest))
          ∙ take-append (taken ++ (x ∷ [])) rest (length (taken ++ (x ∷ []))) refl)

      longer : (a : Hash) → x.source ≡ a → Leads a (reverse (taken ++ (x ∷ []))) p.head.hash
      longer a eq =
          subst (λ t. Leads a t p.head.hash) (sym (reverse-append taken (x ∷ [])))
            (eq, subst (λ t. Leads t (reverse taken) p.head.hash) (sym li.0) le)

-- The plan of an accepted pointer, its sizes summed as the code sums them.
pub make_plan-IsRight :
    (p q : Pointer) (current : Hash)
    → check_pointer p ≡ ok q
    → IsRight p current (make_plan p current)
make_plan-IsRight p q current h = elim (Bool-cases (bytes_eq current p.head.hash)) [
  | inl same ↦
      unfold make_plan in rw same (here ((bytes_eq_iff current p.head.hash).0 same) refl refl)
  | inr away ↦
      unfold make_plan in
      rw away (
        find_chain-IsRight p current (λ e. cc ((bytes_eq_iff current p.head.hash).1 e)) max_chain
          p.head.blob p.head.hash [] p.chain refl refl refl (check_pointer-Links p q h).1 refl tt)
]
