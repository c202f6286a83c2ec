-- ===== src/Publish/Reach.antt =====
-- What holds of the store whatever the publishers do.
use go_binsync.Prelude.{ℕ, ◌≡◌, ◌⊎◌, some, ok, All}
use mathlib.Core.Logic.{if_pos, if_neg}
use native.Mathlib.Decide.{ℕ_discrete}
use go_binsync.Release.Pointer.{Pointer, parse_pointer, blob_key}
use go_binsync.Release.Plan.Right.{Links, check_chain-Links}
use go_binsync.Publish.Safe.Chains.{parse_pointer-ok}
use go_binsync.Publish.Program.{Prog}
use go_binsync.Publish.{run, pointer_key}
use go_binsync.Publish.Store.{
  Object, Store, System, Setting, Step, turn, start, Reach, empty, later, update,
}
use go_binsync.Publish.Right.{IsSetting, blob_of, IsGood, IsHead, IsRight, Follows, Moves, Keeps}
use go_binsync.Publish.Right.Writes.{IsFine, IsFine-refl, Keeps-refl, Keeps-trans}
use go_binsync.Publish.Safe.{Safe, Safe-Keeps, Any, Call-Safe}
use go_binsync.Publish.Safe.Puts.{run-Safe}

module _ (w : Setting) (right_w : IsSetting w) where
  record Inv (s : System) : Type 0 where
    pub right : IsRight w s.store
    pub safe : (i : ℕ) → Safe w (Any w) s.store (s.publishers i)

  update-Safe :
      (f : ℕ → Prog (Unit {0})) (i : ℕ) (q : Prog (Unit {0})) (s : Store)
      → ((j : ℕ) → Safe w (Any w) s (f j))
      → Safe w (Any w) s q
      → (j : ℕ) → Safe w (Any w) s (update f i q j)
  update-Safe f i q s h k j = elim (ℕ_discrete i j) [
    | yes e ↦ rw (if_pos _ e) k
    | no ne ↦ rw (if_neg _ ne) (h j)
  ]

  Step-Inv : (s t : System) → Inv s → Step w s t → Inv t × IsFine w s.store t.store
  Step-Inv s t inv (turn i {t = store} {q} call) =
      let (fine, rest) = Call-Safe w s.store store (s.publishers i) q call inv.right (inv.safe i) in
      (
        record {
          right = fine.right;
          safe =
              update-Safe s.publishers i q store
                (λ j. Safe-Keeps w s.store store (s.publishers j) fine.kept (inv.safe j)) rest;
        },
        fine,
      )
  Step-Inv s t inv (start i bin text is_release) = (
    record {
      right = inv.right;
      safe =
          update-Safe s.publishers i (run w.site bin text) s.store inv.safe
            (run-Safe w right_w bin text is_release s.store);
    },
    IsFine-refl w s.store inv.right,
  )

  Reach-Inv : (s : System) → Reach w s → Inv s
  Reach-Inv s empty = record {
    right = record {
      pointer = λ o h. cc;
      patches = λ a b o is_a is_b h. cc;
      blobs = λ c o is_c h. cc;
    };
    safe = λ i. tt;
  }
  Reach-Inv s (later {s = r} before step) = (Step-Inv r s (Reach-Inv r before) step).0

  pub Reach-IsRight : (s : System) → Reach w s → IsRight w s.store
  Reach-IsRight s r = (Reach-Inv s r).right

  pub Step-Moves : (s t : System) → Reach w s → Step w s t → Moves w s.store t.store
  Step-Moves s t r step = (Step-Inv s t (Reach-Inv s r) step).1.moves

  -- The pointer of a store, what it says and what the store holds of it.
  pub record Published (s : Store) (p : Pointer) : Type 0 where
    pub head : IsHead w p.head
    pub chain : All (IsGood w s) p.chain
    pub links : Links p.head.hash p.chain
    pub blob : (o : Object) → s (blob_key p.head.hash) ≡ some o → o.body ≡ (blob_of w p.head.hash).0

  -- Where IsSetting holds, of the releases, their keys, the hash and the JSON coding: in every
  -- state that the steps of any number of publishers lead to, whatever calls fail and whichever
  -- publishers stop: what the store holds as the pointer passes ParsePointer; its head is a
  -- release with its size and its blob; its edges link up to the head, each between two releases,
  -- and the store holds the patch that Encode makes between them, with the size and the hash that
  -- the edge names; and what it holds under the key of the head's blob is that blob.
  pub Reach-Published :
      (s : System) (o : Object)
      → Reach w s
      → s.store pointer_key ≡ some o
      → (p : Pointer) × (parse_pointer w.site.unmarshal o.body ≡ ok p) × Published s.store p
  Reach-Published s o r at_pointer =
      let right = Reach-IsRight s r in
      let x = right.pointer o at_pointer in
      let (_, links, _) = parse_pointer-ok w.site.unmarshal o.body x.p x.parsed in
      (
        x.p,
        x.parsed,
        record {
          head = x.head;
          chain = x.chain;
          links = check_chain-Links x.p.head.hash x.p.chain links;
          blob = λ a h. right.blobs x.p.head.hash a x.head.release h;
        },
      )

  -- Where IsSetting holds, of the releases, their keys, the hash and the JSON coding: in a state
  -- that the steps of publishers lead to, a step of any publisher leaves the pointer, or replaces
  -- it by one with a higher sequence number, unless that is the highest int64, whose chain is
  -- empty or is an edge from the replaced head in front of the replaced chain, cut to MaxChain
  -- edges.
  pub Step-Follows :
      (s t : System) (o : Object)
      → Reach w s
      → Step w s t
      → s.store pointer_key ≡ some o
      → (p : Pointer) × (o' : Object) × (q : Pointer) × (parse_pointer w.site.unmarshal o.body
          ≡ ok p)
        × (t.store pointer_key ≡ some o')
        × (parse_pointer w.site.unmarshal o'.body ≡ ok q)
        × ((o' ≡ o) ⊎ Follows p q)
  unfolding Moves
  Step-Follows s t o r step at_pointer =
      let (p, parsed, _) = Reach-Published s o r at_pointer in
      let (o', q, at', parsed', on) = Step-Moves s t r step o p at_pointer parsed in
      (p, o', q, parsed, at', parsed', on)

  -- The states after `s`.
  pub data After (s : System) : System → Type 0 where
    same : After s s
    next : {t u : System} → After s t → Step w t u → After s u

  After-Reach : (s t : System) → Reach w s → After s t → Reach w t
  After-Reach s t r same = r
  After-Reach s t r (next {t = m} before step) = later (After-Reach s m r before) step

  pub After-Keeps : (s t : System) → Reach w s → After s t → Keeps w s.store t.store
  After-Keeps s t r same = Keeps-refl w s.store
  After-Keeps s t r (next {t = m} before step) =
      Keeps-trans w s.store m.store t.store (After-Keeps s m r before)
        (Step-Inv m t (Reach-Inv m (After-Reach s m r before)) step).1.kept
