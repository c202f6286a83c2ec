-- ===== src/Publish/Fetch.antt =====
-- cmd/go-binsync/blob.go, and get of cmd/go-binsync/cache.go. The workers of fetchBlob write apart
-- parts of the output, and its hash decides in the end: here the frames come one after the other.
use go_binsync.Prelude.{
  ℕ, ◌+◌, ◌-◌, Bool, true, false, ◌&&◌, List, [], ◌∷◌, Option, none, some, Result, ok, err, panic,
  stuck, length, take, replicate, overwrite, ltb, ◌==◌, if◌then◌else◌,
}
use go_binsync.Varint.{is_neg}
use go_binsync.Release.Hash.{Hash, bytes_eq}
use go_binsync.Release.Pointer.{Frame, Blob}
use go_binsync.Release.Blob.{BlobError, decode_frame, plain_size, check}
use go_binsync.Publish.Program.{
  Prog, pure, fail, get, read_cache, Answer, found, missing, broken, store_error, crashed, Site,
  ◌>>=◌,
}

abbrev pub exists_answered : Answer → Prog Bool
exists_answered (found body etag) = pure true
exists_answered missing = pure false
exists_answered broken = fail store_error

-- One byte of the object is asked for.
unfoldable pub exists : List ℕ → Prog Bool
exists key = get key (some (0, 1)) exists_answered

abbrev pub same_frame : Frame → Frame → Bool
same_frame a b =
    a.off == b.off
    && (a.len == b.len
        && (a.zoff == b.zoff && (a.zlen == b.zlen && (a.codec == b.codec && bytes_eq a.b3 b.b3))))

unfoldable pub same_frames : List Frame → List Frame → Bool
unfolding bytes_eq
same_frames [] [] = true
same_frames [] (b ∷ gs) = false
same_frames (a ∷ fs) [] = false
same_frames (a ∷ fs) (b ∷ gs) = same_frame a b && same_frames fs gs

-- releaseCache.get: only bytes that hash to their own name.
unfoldable pub cached : Site → Hash → Prog (Option (List ℕ))
unfolding bytes_eq
cached s h = read_cache h λ file. elim file [
  | none ↦ pure none
  | some b ↦ if bytes_eq (s.calls.hash_of b) h then pure (some b) else pure none
]

-- `copy(out[f.Off:], plain)`
unfoldable pub paste : List ℕ → ℕ → List ℕ → List ℕ
paste out off plain = overwrite off (take (length out - off) plain) out

abbrev pub pasted :
    Frame
    → List ℕ
    → Result BlobError (List ℕ)
    → (List ℕ → Prog (Option (List ℕ)))
    → Prog (Option (List ℕ))
pasted f out (ok plain) next =
    if ltb (length out) f.off then fail crashed else next (paste out f.off plain)
pasted f out (err e) next = pure none
pasted f out panic next = fail crashed
pasted f out stuck next = fail crashed

-- fetchFrame, and the copy of what it returns; `none` is an error.
abbrev pub answered :
    Site → Frame → List ℕ → (List ℕ → Prog (Option (List ℕ))) → Answer → Prog (Option (List ℕ))
answered s f out next (found body etag) =
    pasted f out (decode_frame s.calls.codecs s.calls.hash_of f (take (f.zlen + 1) body)) next
answered s f out next missing = pure none
answered s f out next broken = pure none

-- The loop over the frames.
unfoldable pub fetch_frames : Site → List ℕ → List Frame → List ℕ → Prog (Option (List ℕ))
unfolding paste decode_frame
fetch_frames s key [] out = pure (some out)
fetch_frames s key (f ∷ rest) out =
    get key (some (f.zoff, f.zlen)) (answered s f out (fetch_frames s key rest))

unfoldable pub hashed : Site → Hash → Option (List ℕ) → Option (List ℕ)
unfolding bytes_eq
hashed s h none = none
hashed s h (some out) = if bytes_eq (s.calls.hash_of out) h then some out else none

abbrev pub checked : Site → Blob → Hash → Result BlobError (Unit {0}) → Prog (Option (List ℕ))
checked s b h (ok _) = if is_neg (plain_size b) then fail crashed else (do
  out ← fetch_frames s b.key b.frames (replicate (plain_size b) 0)
  pure (hashed s h out))
checked s b h (err e) = pure none
checked s b h panic = fail crashed
checked s b h stuck = fail crashed

unfoldable pub fetch_blob : Site → Hash → Blob → Prog (Option (List ℕ))
unfolding fetch_frames hashed check plain_size
fetch_blob s h b = checked s b h (check b)
