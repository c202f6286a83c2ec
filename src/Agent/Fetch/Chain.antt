-- ===== src/Agent/Fetch/Chain.antt =====
-- applyChain over patches that Encode made.
use go_binsync.Prelude.{
  ℕ, ◌≤◌, ◌<◌, ◌^◌, ◌≡◌, refl, ap, ◌∙◌, false, List, [], ◌∷◌, ok, ◌>>=◌, length, ==_iff, arith,
}
use go_binsync.Int64.Laws.{lt64-false}
use go_binsync.Varint.{is_neg}
use go_binsync.Release.Hash.RoundTrip.{bytes_eq_iff}
use go_binsync.Release.Pointer.{Edge, Pointer}
use go_binsync.Release.Plan.{Plan, plan_chain}
use go_binsync.Delta.Codec.{Options, encode}
use go_binsync.Delta.Codec.RoundTrip.{AreRight, IsPlain, apply-encode}
use go_binsync.Delta.Plain.Runs.Steps.{AreBytes}
use go_binsync.Delta.Plain.Encode.{max_plain_size}
use go_binsync.Agent.Fetch.{
  Link, exactly, object_loop, object, applied, apply_edge, apply_edges, apply_chain, or_blob, build,
}

-- A binary that the plain codec takes.
pub record IsFile (b : List ℕ) : Type 0 where
  pub bytes : AreBytes b
  pub size : length b ≤ max_plain_size

module _ (a : Link) where
  -- The edge names the patch that Encode made from `old` to `new`, and the store has it.
  pub record IsEdge (e : Edge) (old new : List ℕ) : Type 0 where
    pub options : Options
    pub plain : IsPlain a.calls old new options
    pub patch : List ℕ
    pub made : encode a.calls old new options ≡ ok patch
    pub digest : e.b3 ≡ a.calls.hash_of patch
    pub size : e.size ≡ length patch
    pub fits : length patch ≤ a.max
    pub stored : a.get 4 e.key ≡ ok patch

  -- Edges from the file `old` to the file `new`, oldest first.
  pub data Leads : List ℕ → List Edge → List ℕ → Type 0 where
    here : (b : List ℕ) → Leads b [] b
    step :
        (old mid new : List ℕ) (e : Edge) (es : List Edge)
        → IsFile mid
        → IsEdge e old mid
        → Leads mid es new
        → Leads old (e ∷ es) new

  object-stored :
      (key patch : List ℕ) (want : ℕ)
      → a.max < 2 ^ 63
      → want ≡ length patch
      → length patch ≤ a.max
      → a.get 4 key ≡ ok patch
      → object a key want ≡ ok patch
  unfolding object object_loop exactly
  object-stored key patch want small size fits stored =
      let positive : is_neg (length patch) ≡ false = ground arith in
      rw
        (
          size,
          stored,
          positive,
          lt64-false a.max (length patch) fits small,
          (==_iff (length patch) (length patch)).1 refl,
        )
        refl

  apply_edge-IsEdge :
      (e : Edge) (old new : List ℕ)
      → AreRight a.calls
      → a.max < 2 ^ 63
      → IsFile old
      → IsFile new
      → IsEdge e old new
      → apply_edge a old e ≡ ok new
  unfolding apply_edge
  apply_edge-IsEdge e old new right small from_file to_file edge =
      let back =
        apply-encode a.calls old new edge.options right edge.plain from_file.bytes to_file.bytes
          from_file.size to_file.size in
      rw
        (
          object-stored e.key edge.patch e.size small edge.size edge.fits edge.stored,
          edge.digest,
          (bytes_eq_iff (a.calls.hash_of edge.patch) (a.calls.hash_of edge.patch)).1 refl,
        )
        (ap applied (rw edge.made at back))

  apply_edges-Leads :
      (old new : List ℕ) (es : List Edge)
      → AreRight a.calls
      → a.max < 2 ^ 63
      → IsFile old
      → Leads old es new
      → apply_edges a old es ≡ ok new
  unfolding apply_edges
  apply_edges-Leads old new [] right small file (here _) = refl
  apply_edges-Leads old new (e ∷ es) right small file (step _ mid _ _ _ next edge rest) =
      rw (apply_edge-IsEdge e old mid right small file next edge)
        (apply_edges-Leads mid new es right small next rest)

  -- For libraries that do what they document: where the plan's edges lead from the file at Path to a
  -- release, each by a patch that Encode made with the plain codec, that the edge describes and that
  -- the store has, and no file on the way is above MaxPlainSize, build makes that release.
  pub build-Leads :
      (p : Pointer) (plan : Plan) (old new : List ℕ)
      → AreRight a.calls
      → a.max < 2 ^ 63
      → plan.kind ≡ plan_chain
      → a.file ≡ ok old
      → IsFile old
      → Leads old plan.edges new
      → build a p plan ≡ ok new
  unfolding build apply_chain
  build-Leads p plan old new right small chain at_path file leads = rw chain (
      ap (λ r. or_blob a p.head p.head.blob (r >>= λ cur. apply_edges a cur plan.edges)) at_path
      ∙ ap (or_blob a p.head p.head.blob)
          (apply_edges-Leads old new plan.edges right small file leads))
