-- ===== src/Release/Plan.antt =====
-- release/plan.go: what a target must fetch to reach the head release.
pub mod Right
pub mod Cheapest
use go_binsync.Prelude.{
  ℕ, zero, suc, ◌+◌, ◌^◌, ◌≡◌, Bool, true, false, ◌&&◌, ◌||◌, not, List, [], ◌∷◌, ◌++◌, Option,
  none, some, length, ltb, leb, ◌==◌, if◌then◌else◌,
}
use mathlib.Core.List.{reverse}
use go_binsync.Int64.{add64, le64}
use go_binsync.Release.Hash.{Hash, bytes_eq}
use go_binsync.Release.Pointer.{Pointer, Edge, Blob, max_chain}

pub data PlanKind : Type 0 where
  plan_none plan_chain plan_blob : PlanKind

pub record Plan : Type 0 where
  pub kind : PlanKind
  pub edges : List Edge
  pub blob : Option Blob
  pub bytes : ℕ
  pub head : Hash
  pub at_head : Bool

-- `for _, e := range p.Chain[:k+1] { bytes += e.Size }`, from the sum `n` on.
unfoldable pub sum_sizes : ℕ → List Edge → ℕ
sum_sizes n [] = n
sum_sizes n (e ∷ rest) = sum_sizes (add64 n e.size) rest

-- The plan behind the loop: the blob, if there is one.
unfoldable pub blob_plan : Hash → Option Blob → Plan
blob_plan head none = record {
  kind = plan_none;
  edges = [];
  blob = none;
  bytes = 0;
  head = head;
  at_head = false;
}
blob_plan head (some b) = record {
  kind = plan_blob;
  edges = [];
  blob = some b;
  bytes = b.size;
  head = head;
  at_head = false;
}

-- `p.Head.Blob != nil && bytes >= p.Head.Blob.Size`
unfoldable pub too_long : Option Blob → ℕ → Bool
too_long none bytes = false
too_long (some b) bytes = le64 b.size bytes

-- The plan that follows the newest edges `taken`, the last of which starts at the target's release.
unfoldable pub chain_plan : Hash → Option Blob → List Edge → Plan
unfolding sum_sizes too_long blob_plan
chain_plan head blob taken =
    let bytes = sum_sizes 0 taken in
    if too_long blob bytes then blob_plan head blob else record {
      kind = plan_chain;
      edges = reverse taken;
      blob = none;
      bytes = bytes;
      head = head;
      at_head = false;
    }

-- The loop at index `k`, with `max_chain - k` rounds left: `taken` is p.Chain[:k].
unfoldable pub find_chain : ℕ → Hash → Option Blob → Hash → List Edge → List Edge → Plan
unfolding chain_plan
find_chain zero head blob current taken rest = blob_plan head blob
find_chain (suc n) head blob current taken [] = blob_plan head blob
find_chain (suc n) head blob current taken (e ∷ rest) =
    let more = find_chain n head blob current (taken ++ (e ∷ [])) rest in
    if bytes_eq e.source current then chain_plan head blob (taken ++ (e ∷ [])) else more

unfoldable pub make_plan : Pointer → Hash → Plan
unfolding find_chain
make_plan p current =
    let head = p.head.hash in
    if bytes_eq current head
    then record {
      kind = plan_none;
      edges = [];
      blob = none;
      bytes = 0;
      head = head;
      at_head = true;
    }
    else find_chain max_chain head p.head.blob current [] p.chain
