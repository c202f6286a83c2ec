-- ===== src/Publish/Safe/Pointers.antt =====
-- The pointer that a publisher puts: it parses, and it follows the pointer that was read.
use go_binsync.Prelude.{
  ℕ, ◌-◌, ◌^◌, ◌<◌, ◌≡◌, refl, sym, ap, ◌∙◌, ◌⊎◌, inl, inr, true, false, ◌==◌, List, [], ◌∷◌,
  Option, none, some, Result, ok, length, take, All, All_take, arith, if◌then◌else◌, if_both,
}
use mathlib.Core.Path.{subst}
use go_binsync.Varint.{is_neg}
use go_binsync.Int64.{lt64, le64, add64}
use go_binsync.Release.Hash.{Hash, is_zero}
use go_binsync.Release.Pointer.{
  Edge, Pointer, PointerError, known_format, max_chain, incomplete, check_chain, check_pointer,
  parse_pointer, patch_key,
}
use go_binsync.Publish.{Publisher, pointer_key, chain_of, next_pointer, tag_of}
use go_binsync.Publish.Store.{Object, Store, write, etag_of, Setting}
use go_binsync.Publish.Right.{IsSetting, IsGood, IsRight, Follows, Moves}
use go_binsync.Publish.Right.Writes.{write_self}
use go_binsync.Publish.Safe.Chains.{parse_pointer-ok, check_chain-front, later_seq}
use go_binsync.Publish.Safe.Known.{WasRead, Read, IsPublisher, source_of, EdgeFits}

not_neg : (n : ℕ) → n < 2 ^ 62 → is_neg n ≡ false
not_neg n h = ground arith

key_nonempty : (a b : Hash) → (length (patch_key a b) == 0) ≡ false
unfolding patch_key
key_nonempty a b = ground arith

check_pointer-whole :
    (x : Pointer)
    → x.format ≡ known_format
    → is_zero x.head.hash ≡ false
    → is_neg x.head.size ≡ false
    → check_chain x.head.hash x.chain ≡ ok tt
    → check_pointer x ≡ ok x
unfolding check_pointer
check_pointer-whole x known named positive links = rw (known, named, positive, links) refl

ok_inj {ℓ} : {A : Type ℓ} {x y : A} → ◌≡◌ {A = Result PointerError A} (ok x) (ok y) → x ≡ y
ok_inj h = cc

parse_pointer-of :
    (u : List ℕ → Option Pointer) (b : List ℕ) (x : Pointer)
    → u b ≡ some x
    → check_pointer x ≡ ok x
    → parse_pointer u b ≡ ok x
unfolding parse_pointer
parse_pointer-of u b x e h = rw (e, parse_pointer) h

module _ (w : Setting) (right_w : IsSetting w) (p : Publisher) (is_p : IsPublisher w p) where
  -- The chain of the pointer that is put.
  pub next_chain-IsGood :
      (prev : Option Pointer) (edge : Option Edge) (c : ℕ) (s : Store)
      → Read w prev s
      → EdgeFits w p (source_of prev) edge s
      → All (IsGood w s) (next_pointer p prev edge c).chain
  unfolding next_pointer
  next_chain-IsGood none edge c s r fits = tt
  next_chain-IsGood (some q) none c s r fits = tt
  next_chain-IsGood (some q) (some e) c s r (good, _, _) =
      let chain : All (IsGood w s) q.chain =
        subst (λ (x : Pointer). All (IsGood w s) x.chain) (sym r.same) r.chain in
      (good, All_take (IsGood w s) 7 q.chain chain)

  whole : (s : Store) (e : Edge) → IsGood w s e → incomplete e ≡ false
  unfolding incomplete
  whole s e good =
      rw
        (
          right_w.not_zero e.source good.from,
          right_w.not_zero e.target good.to,
          good.key,
          key_nonempty e.source e.target,
        )
        refl

  next_chain-check :
      (prev : Option Pointer) (edge : Option Edge) (c : ℕ) (s : Store)
      → Read w prev s
      → EdgeFits w p (source_of prev) edge s
      → check_chain p.hash (next_pointer p prev edge c).chain ≡ ok tt
  unfolding next_pointer
  next_chain-check none edge c s r fits = unfold check_chain in refl
  next_chain-check (some q) none c s r fits = unfold check_chain in refl
  next_chain-check (some q) (some e) c s r (good, at_head, to) =
      let (_, links, _) = parse_pointer-ok w.site.unmarshal r.body r.p r.parsed in
      check_chain-front e q.chain p.hash 7 (whole s e good) to (
        subst (λ (h : Hash). check_chain h q.chain ≡ ok tt) (sym at_head)
          (subst (λ (x : Pointer). check_chain x.head.hash x.chain ≡ ok tt) (sym r.same) links))

  next_seq :
      (prev : Option Pointer) (c : ℕ)
      → c < 2 ^ 64
      → elim prev [ none ↦ c | some q ↦ if le64 c q.seq then add64 q.seq 1 else c ] < 2 ^ 64
  unfolding add64
  next_seq none c lt = lt
  next_seq (some q) c lt =
      if_both (λ (x : ℕ). x < 2 ^ 64) (le64 c q.seq) {x = add64 q.seq 1} {y = c} (omega arith) lt

  pub next_pointer-parsed :
      (prev : Option Pointer) (edge : Option Edge) (c : ℕ) (s : Store)
      → c < 2 ^ 64
      → Read w prev s
      → EdgeFits w p (source_of prev) edge s
      → parse_pointer w.site.unmarshal (w.site.marshal (next_pointer p prev edge c))
        ≡ ok (next_pointer p prev edge c)
  unfolding next_pointer
  next_pointer-parsed prev edge c s lt r fits =
      let x = next_pointer p prev edge c in
      let positive : is_neg (length p.bin) ≡ false =
        subst (λ (b : List ℕ). is_neg (length b) ≡ false) (sym is_p.bin)
          (not_neg (length (w.content p.hash)) (right_w.small p.hash is_p.release)) in
      parse_pointer-of w.site.unmarshal (w.site.marshal x) x
        (right_w.json_back x (next_seq prev c lt))
        (check_pointer-whole x refl (right_w.not_zero p.hash is_p.release) positive
          (next_chain-check prev edge c s r fits))

  -- Where the compare-and-swap goes through, the pointer is the one that was read.
  same_version :
      (t : Store) (o : Object) (q : Pointer) (r : WasRead w t q)
      → IsRight w t
      → t pointer_key ≡ some o
      → etag_of (t pointer_key) ≡ q.etag
      → parse_pointer w.site.unmarshal o.body ≡ ok r.p
  same_version t o q r right at_pointer tag =
      let x = right.pointer o at_pointer in
      let same_tag : o.etag ≡ q.etag = sym (ap etag_of at_pointer) ∙ tag in
      let same_body : o.body ≡ r.body =
        sym x.version.body ∙ ap w.version_of same_tag ∙ r.versioned in
      ap (parse_pointer w.site.unmarshal) same_body ∙ r.parsed

  next_pointer-Follows :
      (q : Pointer) (edge : Option Edge) (c : ℕ) (s : Store) (r : WasRead w s q)
      → EdgeFits w p q.head.hash edge s
      → Follows r.p (next_pointer p (some q) edge c)
  unfolding next_pointer
  next_pointer-Follows q edge c s r fits =
      let (unmarshalled, _, _) = parse_pointer-ok w.site.unmarshal r.body r.p r.parsed in
      let small : q.seq < 2 ^ 64 =
        subst (λ (x : Pointer). x.seq < 2 ^ 64) (sym r.same)
          (right_w.json_int r.body r.p unmarshalled) in
      record {
        later =
            subst
              (λ (x : Pointer).
                (x.seq ≡ 2 ^ 63 - 1) ⊎ (lt64 x.seq (next_pointer p (some q) edge c).seq ≡ true))
              r.same (later_seq c q.seq small);
        chained =
            subst
              (λ (x : Pointer).
                (chain_of q edge ≡ [])
                ⊎ ((e : Edge) × (e.source ≡ x.head.hash)
                    × (e.target ≡ p.hash)
                    × (chain_of q edge ≡ take max_chain (e ∷ x.chain))))
              r.same (chained_by edge fits);
      }
    where
      chained_by :
          (edge : Option Edge)
          → EdgeFits w p q.head.hash edge s
          → (chain_of q edge ≡ [])
            ⊎ ((e : Edge) × (e.source ≡ q.head.hash)
                × (e.target ≡ p.hash)
                × (chain_of q edge ≡ take max_chain (e ∷ q.chain)))
      chained_by none f = inl refl
      chained_by (some e) (good, from, to) = inr (e, from, to, refl)

  pub next_pointer-Moves :
      (prev : Option Pointer) (edge : Option Edge) (c : ℕ) (t : Store) (o' : Object)
      → IsRight w t
      → Read w prev t
      → EdgeFits w p (source_of prev) edge t
      → etag_of (t pointer_key) ≡ tag_of prev
      → parse_pointer w.site.unmarshal o'.body ≡ ok (next_pointer p prev edge c)
      → Moves w t (write t pointer_key o')
  unfolding Moves
  next_pointer-Moves none edge c t o' right r fits tag parsed o p0 at_pointer parsed0 =
      absurd ((right.pointer o at_pointer).version.tagged (sym (ap etag_of at_pointer) ∙ tag))
  next_pointer-Moves (some q) edge c t o' right r fits tag parsed o p0 at_pointer parsed0 = (
    o',
    next_pointer p (some q) edge c,
    write_self t pointer_key o',
    parsed,
    inr (
        subst (λ (x : Pointer). Follows x (next_pointer p (some q) edge c))
          (ok_inj (sym (same_version t o q r right at_pointer tag) ∙ parsed0))
          (next_pointer-Follows q edge c t r fits)),
  )
