-- ===== src/Delta/Container/Body.antt =====
-- frameBody and readBody of delta/container.go: the compressed frames behind the header. BLAKE3 is
-- the parameter `hash_of`.
pub mod RoundTrip
use go_binsync.Prelude.{
  ℕ, zero, suc, ◌+◌, ◌-◌, ◌/◌, ◌&&◌, ◌||◌, not, min, List, [], ◌∷◌, ◌++◌, Result, ok, err, panic,
  stuck, length, slice, ltb, ◌==◌, if◌then◌else◌,
}
use go_binsync.Cz.{Codecs, CzError, compress, decompress}
use go_binsync.Release.Hash.{Hash, bytes_eq}
use go_binsync.Delta.Errors.{Error, patch_size_wrong, frame_hash_wrong, frame_broken}
use go_binsync.Delta.Container.{Frame, Header, frame_size, size}

-- One frame in front of the others and their bytes.
unfoldable pub add_frame :
    Codecs → (List ℕ → Hash) → ℕ → List ℕ → List Frame × List ℕ → List Frame × List ℕ
add_frame c hash_of off chunk (fs, out) =
    let z = compress c chunk in
    (
      record {
        off = off;
        len = length chunk;
        zlen = length z.bytes;
        codec = z.codec;
        b3 = hash_of z.bytes;
      }
          ∷ fs,
      z.bytes ++ out,
    )

-- `for off := 0; off < len(body) || off == 0 && len(body) == 0; off += FrameSize`
unfoldable pub frame_loop : ℕ → Codecs → (List ℕ → Hash) → List ℕ → ℕ → List Frame × List ℕ
frame_loop zero c hash_of body off = ([], [])
frame_loop (suc n) c hash_of body off =
    let end_of = min (off + frame_size) (length body) in
    let rest = frame_loop n c hash_of body (off + frame_size) in
    if ltb off (length body) || (off == 0 && length body == 0)
    then add_frame c hash_of off (slice off end_of body)
        (if end_of == length body then ([], []) else rest)
    else ([], [])

-- Each round but the last takes a whole frame.
unfoldable pub frame_body : Codecs → (List ℕ → Hash) → List ℕ → List Frame × List ℕ
unfolding frame_loop
frame_body c hash_of body = frame_loop (length body / frame_size + 1) c hash_of body 0

abbrev pub decoded : Result CzError (List ℕ) → Result Error (List ℕ)
decoded (ok b) = ok b
decoded (err e) = err frame_broken
decoded panic = panic
decoded stuck = stuck

-- One frame; a slice out of range panics.
unfoldable pub open_frame : Codecs → (List ℕ → Hash) → List ℕ → ℕ → Frame → Result Error (List ℕ)
open_frame c hash_of patch off f =
    let z = slice off (off + f.zlen) patch in
    if ltb (length patch) (off + f.zlen)
    then panic
    else if not (bytes_eq (hash_of z) f.b3)
    then err frame_hash_wrong
    else decoded (decompress c f.codec z f.len)

abbrev pub next : {A B : Type 0} → Result Error A → (A → Result Error B) → Result Error B
next (ok a) k = k a
next (err e) k = err e
next panic k = panic
next stuck k = stuck

-- `for i, f := range h.Frames`, from the offset `off` and the body so far on.
unfoldable pub read_loop :
    Codecs → (List ℕ → Hash) → List ℕ → ℕ → List Frame → List ℕ → Result Error (List ℕ)
read_loop c hash_of patch off [] body = ok body
read_loop c hash_of patch off (f ∷ fs) body =
    next (open_frame c hash_of patch off f)
      (λ out. read_loop c hash_of patch (off + f.zlen) fs (body ++ out))

unfoldable pub read_body : Codecs → (List ℕ → Hash) → Header → List ℕ → Result Error (List ℕ)
unfolding read_loop size
read_body c hash_of h patch =
    if not (length patch == size h)
    then err patch_size_wrong
    else read_loop c hash_of patch h.body_off h.frames []
