-- ===== src/Agent/Fetch.antt =====
-- agent/fetch.go: from a plan to the bytes of the head release. The store's answers are the parameter
-- `get`: what the body of an object holds, at each try. What fetchBlob returns is a parameter as well; Agent/Frames models it.
pub mod Chain
use go_binsync.Prelude.{
  ℕ, zero, suc, ◌+◌, ◌-◌, Bool, true, false, ◌||◌, not, List, [], ◌∷◌, Option, none, some, Result,
  ok, err, panic, stuck, ◌>>=◌, length, ltb, ◌==◌, if◌then◌else◌,
}
use go_binsync.Int64.{lt64}
use go_binsync.Varint.{is_neg}
use go_binsync.Release.Hash.{Hash, bytes_eq}
use go_binsync.Release.Pointer.{Blob, Head, Edge, Pointer}
use go_binsync.Release.Plan.{Plan, PlanKind, plan_chain}
use go_binsync.Delta.Errors.{unsupported_transform}
use go_binsync.Delta.Errors
use go_binsync.Delta.Codec
use go_binsync.Delta.Codec.{Calls}

-- The errors, as far as the callers tell them apart. `verify` is errVerify.
pub data FetchError : Type 0 where
  not_found transport bad_size verify unsupported no_blob unread bad_blob : FetchError

abbrev pub fetch_tries : ℕ
fetch_tries = 5

-- A target's side of the network: an object's body by the number of tries that are left, whether the
-- wait behind that try comes to its end, and the file at Path.
pub record Link : Type 0 where
  pub calls : Calls
  pub max : ℕ
  pub get : ℕ → List ℕ → Result FetchError (List ℕ)
  pub waits : ℕ → List ℕ → Bool
  pub file : Result FetchError (List ℕ)
  pub fetch_blob : Head → Blob → Result FetchError (List ℕ)

-- get: exactly `want` bytes.
unfoldable pub exactly : ℕ → Result FetchError (List ℕ) → Result FetchError (List ℕ)
exactly want r = r >>= λ body.
    if is_neg want then panic else if length body == want then ok body else err transport

abbrev pub is_not_found : FetchError → Bool
is_not_found not_found = true
is_not_found _ = false

abbrev pub try_again :
    Result FetchError (List ℕ) → Bool → Result FetchError (List ℕ) → Result FetchError (List ℕ)
try_again (err e) waited more = if is_not_found e || not waited then err e else more
try_again r waited more = r

-- `for try := 1; ; try++`, with `fetchTries - try` tries left.
unfoldable pub object_loop : ℕ → Link → List ℕ → ℕ → Result FetchError (List ℕ)
unfolding exactly
object_loop zero a key want = exactly want (a.get 0 key)
object_loop (suc n) a key want =
    let more = object_loop n a key want in
    try_again (exactly want (a.get (suc n) key)) (a.waits (suc n) key) more

unfoldable pub object : Link → List ℕ → ℕ → Result FetchError (List ℕ)
unfolding object_loop
object a key want =
    if is_neg want || lt64 a.max want
    then err bad_size
    else object_loop (fetch_tries - 1) a key want

-- What becomes of an error of delta.Apply.
abbrev pub apply_failed : Errors.Error → FetchError
apply_failed unsupported_transform = unsupported
apply_failed _ = verify

abbrev pub applied : Result Errors.Error (List ℕ) → Result FetchError (List ℕ)
applied (ok b) = ok b
applied (err e) = err (apply_failed e)
applied panic = panic
applied stuck = stuck

unfoldable pub apply_edge : Link → List ℕ → Edge → Result FetchError (List ℕ)
apply_edge a cur e = do
  patch ← object a e.key e.size
  if not (bytes_eq (a.calls.hash_of patch) e.b3)
      then err verify
      else applied (Codec.apply a.calls cur patch)

-- `for _, e := range plan.Edges`
unfoldable pub apply_edges : Link → List ℕ → List Edge → Result FetchError (List ℕ)
unfolding apply_edge
apply_edges a cur [] = ok cur
apply_edges a cur (e ∷ rest) = do next ← apply_edge a cur e; apply_edges a next rest

unfoldable pub apply_chain : Link → Plan → Result FetchError (List ℕ)
unfolding apply_edges
apply_chain a plan = do cur ← a.file; apply_edges a cur plan.edges

abbrev pub is_unsupported : FetchError → Bool
is_unsupported unsupported = true
is_unsupported _ = false

-- fetchBlob of a blob that is nil panics.
abbrev pub from_blob : Link → Head → Option Blob → Result FetchError (List ℕ)
from_blob a head none = panic
from_blob a head (some b) = a.fetch_blob head b

-- `case !unsupportedTransform(err)` and `case p.Head.Blob == nil`
abbrev pub or_blob :
    Link → Head → Option Blob → Result FetchError (List ℕ) → Result FetchError (List ℕ)
or_blob a head blob (err e) =
    if not (is_unsupported e)
    then err e
    else elim blob [ none ↦ err no_blob | some b ↦ a.fetch_blob head b ]
or_blob a head blob r = r

-- build; `outcome_for` of the error is its outcome.
unfoldable pub build : Link → Pointer → Plan → Result FetchError (List ℕ)
unfolding apply_chain
build a p plan = elim plan.kind [
  | plan_chain ↦ or_blob a p.head p.head.blob (apply_chain a plan)
  | _ ↦ from_blob a p.head p.head.blob
]
