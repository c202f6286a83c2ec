-- ===== src/Publish/Safe/Chains.antt =====
-- The chain of a new pointer, as ParsePointer checks it, and its sequence number.
use go_binsync.Prelude.{
  ℕ, zero, suc, ◌-◌, ◌^◌, ◌<◌, ◌≡◌, refl, ap, ◌∙◌, ◌⊎◌, true, false, List, [], ◌∷◌, Option, none,
  some, ok, err, take, arith, if◌then◌else◌,
}
use mathlib.Core.Path.{subst}
use go_binsync.Int64.{lt64, le64, add64}
use go_binsync.Release.Hash.{Hash}
use go_binsync.Release.Hash.RoundTrip.{bytes_eq_iff}
use go_binsync.Release.Pointer.{
  Edge, Pointer, PointerError, incomplete, check_links, check_chain, check_pointer, parse_pointer,
}

-- What ParsePointer has checked.
pub check_pointer-ok :
    (p q : Pointer) → check_pointer p ≡ ok q → (p ≡ q) × (check_chain p.head.hash p.chain ≡ ok tt)
unfolding check_pointer
check_pointer-ok p q h = ground arith

pub parse_pointer-ok :
    (u : List ℕ → Option Pointer) (b : List ℕ) (p : Pointer)
    → parse_pointer u b ≡ ok p
    → (u b ≡ some p) × (check_chain p.head.hash p.chain ≡ ok tt) × (check_pointer p ≡ ok p)
unfolding parse_pointer
parse_pointer-ok u b p h = unmarshalled (u b) refl h
  where
    unmarshalled :
        (m : Option Pointer)
        → u b ≡ m
        → elim m [ none ↦ err PointerError.bad_json | some x ↦ check_pointer x ] ≡ ok p
        → (u b ≡ some p) × (check_chain p.head.hash p.chain ≡ ok tt) × (check_pointer p ≡ ok p)
    unmarshalled none is_m e = cc
    unmarshalled (some x) is_m e =
        let (same, links) = check_pointer-ok x p e in
        (
          is_m ∙ ap some same,
          subst (λ (y : Pointer). check_chain y.head.hash y.chain ≡ ok tt) same links,
          subst (λ (y : Pointer). check_pointer y ≡ ok p) same e,
        )

pub check_links-take :
    (newer : Hash) (es : List Edge) (n : ℕ)
    → check_links newer es ≡ ok tt
    → check_links newer (take n es) ≡ ok tt
unfolding check_links
check_links-take newer [] zero h = refl
check_links-take newer [] (suc n) h = refl
check_links-take newer (e ∷ es) zero h = refl
check_links-take newer (e ∷ es) (suc n) h = ground (arith, check_links-take e.source es n)

pub check_chain-links :
    (head : Hash) (es : List Edge) → check_chain head es ≡ ok tt → check_links head es ≡ ok tt
unfolding check_chain check_links
check_chain-links head [] h = refl
check_chain-links head (e ∷ es) h = ground arith

-- A chain that a new edge goes in front of.
pub check_chain-front :
    (e : Edge) (es : List Edge) (head : Hash) (n : ℕ)
    → incomplete e ≡ false
    → e.target ≡ head
    → check_chain e.source es ≡ ok tt
    → check_chain head (take (suc n) (e ∷ es)) ≡ ok tt
unfolding check_chain
check_chain-front e es head n whole at_head h =
    let rest = check_links-take e.source es n (check_chain-links e.source es h) in
    rw (whole, (bytes_eq_iff e.target head).1 at_head) rest

pub later_seq :
    (t seq : ℕ)
    → seq < 2 ^ 64
    → (seq ≡ 2 ^ 63 - 1) ⊎ (lt64 seq (if le64 t seq then add64 seq 1 else t) ≡ true)
unfolding lt64 le64 add64
later_seq t seq h = ground arith
