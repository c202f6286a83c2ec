-- ===== src/Release/Blob.antt =====
-- release/blob.go: a binary in frames that are compressed one by one, and their table. BLAKE3 is
-- the parameter `hash_of`; internal/cz is in Cz. The frames are compressed by several workers, each of
-- which writes the places of its own frame only: here one after the other.
pub mod Check
pub mod Places
pub mod RoundTrip
use go_binsync.Prelude.{
  ℕ, zero, suc, ◌+◌, ◌-◌, ◌*◌, ◌/◌, ◌||◌, Bool, not, min, max, List, [], ◌∷◌, ◌++◌, Option, none,
  some, Result, ok, err, panic, stuck, length, slice, ◌==◌, if◌then◌else◌,
}
use go_binsync.Varint.{is_neg}
use go_binsync.Int64.{add64, lt64}
use go_binsync.Cz.{Codecs, Packed, CzError, compress, decompress}
use go_binsync.Release.Hash.{Hash, bytes_eq}
use go_binsync.Release.Pointer.{Frame, Blob, frame_size, blob_key}

-- Frame `i` with its bytes; its place in the object is not known yet.
unfoldable pub encode_frame : Codecs → (List ℕ → Hash) → ℕ → List ℕ → ℕ → Frame × List ℕ
encode_frame c hash_of frame content i =
    let off = i * frame in
    let end_of = min (off + frame) (length content) in
    let z = compress c (slice off end_of content) in
    (
      record {
        off = off;
        len = end_of - off;
        zoff = 0;
        zlen = length z.bytes;
        codec = z.codec;
        b3 = hash_of z.bytes;
      },
      z.bytes,
    )

-- `for i := range n`, from `i` on.
unfoldable pub encode_frames : Codecs → (List ℕ → Hash) → ℕ → List ℕ → ℕ → ℕ → List (Frame × List ℕ)
unfolding encode_frame
encode_frames c hash_of frame content zero i = []
encode_frames c hash_of frame content (suc k) i =
    encode_frame c hash_of frame content i ∷ encode_frames c hash_of frame content k (i + 1)

-- The second loop: the frames with their places, and the object, from `out` on.
unfoldable pub lay_out : List ℕ → List (Frame × List ℕ) → List Frame × List ℕ
lay_out out [] = ([], out)
lay_out out ((f, z) ∷ rest) =
    let (fs, all) = lay_out (out ++ z) rest in (record f { zoff = length out } ∷ fs, all)

unfoldable pub encode_blob : Codecs → (List ℕ → Hash) → Hash → List ℕ → ℕ → List ℕ × Blob
unfolding encode_frames lay_out blob_key
encode_blob c hash_of h content frame =
    let n = max ((length content + frame - 1) / frame) 1 in
    let (frames, out) = lay_out [] (encode_frames c hash_of frame content n 0) in
    (out, record { key = blob_key h; size = length out; frames = frames })

pub data BlobError : Type 0 where
  frame_size_wrong frame_hash_wrong frame_out_of_order total_wrong : BlobError
  codec_error : CzError → BlobError

abbrev pub decoded : Result CzError (List ℕ) → Result BlobError (List ℕ)
decoded (ok b) = ok b
decoded (err e) = err (codec_error e)
decoded panic = panic
decoded stuck = stuck

unfoldable pub decode_frame : Codecs → (List ℕ → Hash) → Frame → List ℕ → Result BlobError (List ℕ)
unfolding bytes_eq
decode_frame c hash_of f z =
    if not (length z == f.zlen)
    then err frame_size_wrong
    else if not (bytes_eq (hash_of z) f.b3)
    then err frame_hash_wrong
    else decoded (decompress c f.codec z f.len)

-- `for _, f := range b.Frames { n += f.Len }`
unfoldable pub add_lens : ℕ → List Frame → ℕ
unfolding add64
add_lens n [] = n
add_lens n (f ∷ rest) = add_lens (add64 n f.len) rest

unfoldable pub plain_size : Blob → ℕ
unfolding add_lens
plain_size b = add_lens 0 b.frames

-- `f.Off != off || f.Len < 0 || f.Len > FrameSize || f.ZOff != zoff || f.ZLen < 0`
unfoldable pub out_of_order : ℕ → ℕ → Frame → Bool
unfolding lt64
out_of_order off zoff f =
    not (f.off == off)
    || (is_neg f.len || (lt64 frame_size f.len || (not (f.zoff == zoff) || is_neg f.zlen)))

unfoldable pub check_frames : ℕ → ℕ → ℕ → List Frame → Result BlobError (Unit {0})
unfolding out_of_order add64
check_frames size off zoff [] = if not (zoff == size) then err total_wrong else ok tt
check_frames size off zoff (f ∷ rest) =
    let more = check_frames size (add64 off f.len) (add64 zoff f.zlen) rest in
    if out_of_order off zoff f then err frame_out_of_order else more

unfoldable pub check : Blob → Result BlobError (Unit {0})
unfolding check_frames
check b = check_frames b.size 0 0 b.frames
