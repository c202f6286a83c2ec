-- ===== src/Agent/Frames.antt =====
-- agent/fetch.go: fetchBlob, fetchFrames and frame. A pass is a state that the workers change one call
-- at a time, in any order; what the store answers to one frame's requests is an argument of the step.
pub mod Arrived
pub mod Encoded
use go_binsync.Prelude.{
  ℕ, zero, suc, ◌+◌, ◌-◌, ◌≡◌, ◌<◌, ◌⊎◌, Bool, true, false, ◌&&◌, not, List, [], ◌∷◌, ◌++◌, Option,
  none, some, Result, ok, err, panic, stuck, ◌>>=◌, length, take, replicate, map, get_elem?, set,
  overwrite, ◌==◌, if◌then◌else◌,
}
use go_binsync.Varint.{is_neg}
use go_binsync.Cz.{Codecs}
use go_binsync.Release.Hash.{Hash}
use go_binsync.Release.Pointer.{Frame, Blob, Head}
use go_binsync.Release.Blob.{BlobError, decode_frame, plain_size, check}
use go_binsync.Agent.Fetch.{
  FetchError, not_found, verify, bad_blob, fetch_tries, exactly, is_not_found, try_again,
}

abbrev pub blob_workers : ℕ
blob_workers = 8

-- The body of each answer to one frame's requests, by the tries that are left, and whether the wait
-- behind it comes to its end.
pub record Requests : Type 0 where
  pub get : ℕ → Result FetchError (List ℕ)
  pub waits : ℕ → Bool

unfoldable pub frame_loop : ℕ → Requests → ℕ → Result FetchError (List ℕ)
unfolding exactly
frame_loop zero r want = exactly want (r.get 0)
frame_loop (suc n) r want =
    let more = frame_loop n r want in
    try_again (exactly want (r.get (suc n))) (r.waits (suc n)) more

abbrev pub verified : Result BlobError (List ℕ) → Result FetchError (List ℕ)
verified (ok b) = ok b
verified (err e) = err verify
verified panic = panic
verified stuck = stuck

-- frame, up to the copy.
unfoldable pub fetch_frame :
    Codecs → (List ℕ → Hash) → Requests → Frame → Result FetchError (List ℕ)
unfolding frame_loop decode_frame
fetch_frame c hash_of r f = do
  z ← frame_loop (fetch_tries - 1) r f.zlen
  verified (decode_frame c hash_of f z)

-- `copy(out[f.Off:], plain)`
unfoldable pub copy_frame : List ℕ → ℕ → List ℕ → List ℕ
copy_frame out off plain = overwrite off (take (length out - off) plain) out

-- The frames in the channel, those that a worker has in hand, the errors, and whether the context is
-- done.
pub record Pass : Type 0 where
  pub out : List ℕ
  pub have : List Bool
  pub todo : List ℕ
  pub busy : List ℕ
  pub errors : List FetchError
  pub over : Bool

-- The frames that are not in hand, from index `i` on.
unfoldable pub absent : ℕ → List Bool → List ℕ
absent i [] = []
absent i (true ∷ hs) = absent (i + 1) hs
absent i (false ∷ hs) = i ∷ absent (i + 1) hs

unfoldable pub start_pass : List ℕ → List Bool → Bool → Pass
unfolding absent
start_pass out have over = record {
  out = out;
  have = have;
  todo = absent 0 have;
  busy = [];
  errors = [];
  over = over;
}

unfoldable pub without : ℕ → List ℕ → List ℕ
without i [] = []
without i (j ∷ js) = if i == j then js else j ∷ without i js

unfoldable pub contains : ℕ → List ℕ → Bool
contains i [] = false
contains i (j ∷ js) = if i == j then true else contains i js

module _ (c : Codecs) (hash_of : List ℕ → Hash) (b : Blob) where
  pub data Step : Pass → Pass → Type 0 where
    -- A worker takes the next frame.
    taken :
        {p : Pass} (i : ℕ) (rest : List ℕ)
        → p.over ≡ false
        → length p.busy < blob_workers
        → p.todo ≡ i ∷ rest
        → Step p (record p { todo = rest; busy = i ∷ p.busy })
    -- It takes the next frame and leaves, since the context is done.
    left :
        {p : Pass} (i : ℕ) (rest : List ℕ)
        → p.over ≡ true
        → p.todo ≡ i ∷ rest
        → Step p (record p { todo = rest })
    arrived :
        {p : Pass} (i : ℕ) (f : Frame) (r : Requests) (plain : List ℕ)
        → contains i p.busy ≡ true
        → get_elem? b.frames i ≡ some f
        → fetch_frame c hash_of r f ≡ ok plain
        → Step p (record p {
          out = copy_frame p.out f.off plain;
          have = set p.have i true;
          busy = without i p.busy;
        })
    -- The first failure cancels the rest.
    failed :
        {p : Pass} (i : ℕ) (f : Frame) (r : Requests) (e : FetchError)
        → contains i p.busy ≡ true
        → get_elem? b.frames i ≡ some f
        → fetch_frame c hash_of r f ≡ err e
        → Step p (record p { busy = without i p.busy; errors = e ∷ p.errors; over = true })
    -- The agent is told to stop.
    stopped : {p : Pass} → Step p (record p { over = true })

  -- All workers have left: the channel is empty, or they found the context done.
  abbrev pub IsEnded : Pass → Type 0
  IsEnded p = (p.busy ≡ []) × ((p.todo ≡ []) ⊎ (p.over ≡ true))

  -- In front of the passes: the checks of the frame table, and the buffer.
  unfoldable pub fetch_start : Head → Result FetchError (List ℕ)
  fetch_start head = elim (check b) [
    | ok _ ↦
        if not (plain_size b == head.size)
        then err bad_blob
        else if is_neg head.size
        then panic
        else ok (replicate head.size 0)
    | err e ↦ err bad_blob
    | panic ↦ panic
    | stuck ↦ stuck
  ]

  abbrev pub any_not_found : List FetchError → Bool
  any_not_found [] = false
  any_not_found (e ∷ es) = if is_not_found e then true else any_not_found es

  -- The states of fetchBlob from its buffer on: another pass follows one that met a missing blob.
  -- The contexts of the passes are made from the agent's.
  pub data Reach (out : List ℕ) : Pass → Type 0 where
    begin : (over : Bool) → Reach out (start_pass out (map (λ f. false) b.frames) over)
    later : {p q : Pass} → Reach out p → Step p q → Reach out q
    again :
        {p : Pass}
        → Reach out p
        → IsEnded p
        → any_not_found p.errors ≡ true
        → (over : Bool) → Reach out (start_pass p.out p.have over)
