-- ===== src/Publish/Update.antt =====
-- From a publish to an update: a target reads the pointer of a store that publishers have filled, and
-- builds the head release from its own.
use go_binsync.Prelude.{
  ℕ, zero, suc, ◌^◌, ◌≡◌, ◌≤◌, ◌<◌, sym, ap, ◌∙◌, inr, List, [], ◌∷◌, ◌++◌, Option, none, some,
  Result, ok, err, All, All-snoc, All_mono, if_both, arith,
}
use mathlib.Core.Path.{subst}
use mathlib.Core.List.{reverse_aux}
use go_binsync.Release.Hash.{Hash, bytes_eq}
use go_binsync.Release.Pointer.{Blob, Edge, Pointer, PointerError, max_chain, parse_pointer}
use go_binsync.Release.Plan.{
  Plan, plan_chain, blob_plan, too_long, sum_sizes, chain_plan, find_chain, make_plan,
}
use go_binsync.Release.Plan.Right
use go_binsync.Release.Plan.Right.{make_plan-IsRight, here, chain, blob, nothing}
use go_binsync.Delta.Errors.{unsupported}
use go_binsync.Delta.Codec.{encode}
use go_binsync.Delta.Codec.RoundTrip.{AreRight}
use go_binsync.Agent.Fetch.{Link, build}
use go_binsync.Agent.Fetch.Chain.{IsFile, IsEdge, Leads, build-Leads}
use go_binsync.Publish.{options, pointer_key}
use go_binsync.Publish.Store.{Object, Store, System, Setting, Reach}
use go_binsync.Publish.Right.{IsSetting, IsGood}
use go_binsync.Publish.Right.Writes.{Keeps-IsGood}
use go_binsync.Publish.Safe.Chains.{parse_pointer-ok}
use go_binsync.Publish.Reach.{Reach-Published, After, After-Keeps}

-- The edges of a plan are edges of the chain.
module _ (P : Edge → Type 0) where
  All_reverse_aux : (xs ys : List Edge) → All P xs → All P ys → All P (reverse_aux xs ys)
  All_reverse_aux [] ys h k = k
  All_reverse_aux (x ∷ xs) ys (p, h) k = All_reverse_aux xs (x ∷ ys) h (p, k)

  blob_plan-All : (head : Hash) (b : Option Blob) → All P (blob_plan head b).edges
  unfolding blob_plan
  blob_plan-All head none = tt
  blob_plan-All head (some b) = tt

  chain_plan-All :
      (head : Hash) (b : Option Blob) (taken : List Edge)
      → All P taken
      → All P (chain_plan head b taken).edges
  unfolding chain_plan
  chain_plan-All head b taken h =
      if_both (λ (x : Plan). All P x.edges) (too_long b (sum_sizes 0 taken)) (blob_plan-All head b)
        (All_reverse_aux taken [] h tt)

  find_chain-All :
      (n : ℕ) (head : Hash) (b : Option Blob) (current : Hash) (taken rest : List Edge)
      → All P taken
      → All P rest
      → All P (find_chain n head b current taken rest).edges
  unfolding find_chain
  find_chain-All zero head b current taken rest h k = blob_plan-All head b
  find_chain-All (suc n) head b current taken [] h k = blob_plan-All head b
  find_chain-All (suc n) head b current taken (e ∷ rest) h (p, k) =
      let longer = All-snoc P taken e h p in
      if_both (λ (x : Plan). All P x.edges) (bytes_eq e.source current)
        (chain_plan-All head b (taken ++ (e ∷ [])) longer)
        (find_chain-All n head b current (taken ++ (e ∷ [])) rest longer k)

  make_plan-All : (p : Pointer) (current : Hash) → All P p.chain → All P (make_plan p current).edges
  unfolding make_plan
  make_plan-All p current h =
      if_both (λ (x : Plan). All P x.edges) (bytes_eq current p.head.hash) tt
        (find_chain-All max_chain p.head.hash p.head.blob current [] p.chain tt h)

-- The target's side: the same codec, a store that answers, and a limit that the patches keep to.
pub record Sees (w : Setting) (s : Store) (a : Link) : Type 0 where
  pub same_calls : a.calls ≡ w.site.calls
  pub answers : (key : List ℕ) (o : Object) → s key ≡ some o → a.get 4 key ≡ ok o.body
  pub small : a.max < 2 ^ 63

-- The codec makes plain patches of the releases.
pub record IsPlainSetting (w : Setting) : Type 0 where
  pub right : AreRight w.site.calls
  pub file : (h : Hash) → w.Release h → IsFile (w.content h)
  pub declines : (old new : List ℕ) → w.site.calls.encode_go old new options ≡ err unsupported

module _ (w : Setting) (plain : IsPlainSetting w) (s : Store) (a : Link) (sees : Sees w s a) where
  IsGood-IsEdge :
      (e : Edge)
      → IsGood w s e
      → e.size ≤ a.max
      → IsEdge a e (w.content e.source) (w.content e.target)
  IsGood-IsEdge e g fits = record {
    options = options;
    plain = inr (
        ap (λ k. k.encode_go (w.content e.source) (w.content e.target) options) sees.same_calls
        ∙ plain.declines (w.content e.source) (w.content e.target));
    patch = g.patch;
    made =
        ap (λ k. encode k (w.content e.source) (w.content e.target) options) sees.same_calls
        ∙ g.made;
    digest = g.digest ∙ ap (λ k. k.hash_of g.patch) (sym sees.same_calls);
    size = g.size;
    fits = omega (arith, g.size);
    stored = sees.answers e.key g.at_key g.stored ∙ ap ok g.holds;
  }

  edges-Leads :
      (current head : Hash) (es : List Edge)
      → All (IsGood w s) es
      → All (λ e. e.size ≤ a.max) es
      → Right.Leads current es head
      → Leads a (w.content current) es (w.content head)
  edges-Leads current head [] good fit at_head =
      subst (λ h. Leads a (w.content current) [] (w.content h)) at_head
        (Leads.here (w.content current))
  edges-Leads current head (e ∷ es) (g, good) (f, fit) (from, rest) =
      subst (λ h. Leads a (w.content h) (e ∷ es) (w.content head)) from
        (Leads.step (w.content e.source) (w.content e.target) (w.content head) e es
          (plain.file e.target g.to) (IsGood-IsEdge e g f)
          (edges-Leads e.target head es good fit rest))

-- Where IsSetting and IsPlainSetting hold, and so the codec makes plain patches of the releases:
-- a target that Sees the store, with a release at Path and a limit that no patch of the pointer
-- is above, reads the pointer that publishers have put there and plans a chain of patches; then
-- it builds the head release from its own, also where the publishers have gone on until it
-- fetches the patches.
pub build-published :
    (w : Setting) (s t : System) (o : Object) (p : Pointer) (a : Link) (current : Hash)
    → (right_w : IsSetting w) → IsPlainSetting w
    → Reach w s
    → After w right_w s t
    → s.store pointer_key ≡ some o
    → parse_pointer w.site.unmarshal o.body ≡ ok p
    → Sees w t.store a
    → w.Release current
    → a.file ≡ ok (w.content current)
    → All (λ e. e.size ≤ a.max) p.chain
    → (make_plan p current).kind ≡ plan_chain
    → build a p (make_plan p current) ≡ ok (w.content p.head.hash)
build-published w s t o p a current right_w plain r after at_pointer parsed sees is_release at_path
      fit planned =
    let (p', parsed', published) = Reach-Published w right_w s o r at_pointer in
    let same : p' ≡ p = ok_inj (sym parsed' ∙ parsed) in
    let good : All (IsGood w s.store) p.chain =
      subst (λ (x : Pointer). All (IsGood w s.store) x.chain) same published.chain in
    let kept =
      All_mono (Keeps-IsGood w s.store t.store (After-Keeps w right_w s t r after)) p.chain good in
    let (_, _, checked) = parse_pointer-ok w.site.unmarshal o.body p parsed in
    let plan = make_plan p current in
    let all_good = make_plan-All (IsGood w t.store) p current kept in
    let all_fit = make_plan-All (λ e. e.size ≤ a.max) p current fit in
    build-Leads a p plan (w.content current) (w.content p.head.hash)
      (subst AreRight (sym sees.same_calls) plain.right) sees.small planned at_path
      (plain.file current is_release)
      (edges-Leads w plain t.store a sees current p.head.hash plan.edges all_good all_fit
        (leading (make_plan-IsRight p p current checked)))
  where
    ok_inj : {x y : Pointer} → ◌≡◌ {A = Result PointerError Pointer} (ok x) (ok y) → x ≡ y
    ok_inj e = cc

    leading :
        Right.IsRight p current (make_plan p current)
        → Right.Leads current (make_plan p current).edges p.head.hash
    leading (here at_head none_planned _) = absurd (cc (planned, none_planned))
    leading (chain away k leads few front sum cheap) = leads
    leading (blob b away blob_planned at_blob planned_blob why) =
        absurd (cc (planned, blob_planned))
    leading (nothing away none_planned not_head no_blob misses) =
        absurd (cc (planned, none_planned))
