-- ===== src/Release/Blob/RoundTrip.antt =====
-- EncodeBlob and back: its frames, fetched by their places in the object and decoded, are the binary.
use go_binsync.Prelude.{
  ℕ, zero, suc, ◌+◌, ◌-◌, ◌*◌, ◌/◌, ◌^◌, ◌≤◌, ◌<◌, ◌≡◌, refl, sym, ap, ◌∙◌, false, min, max, List,
  [], ◌∷◌, ◌++◌, ok, Result, ◌>>=◌, length, slice, ==_iff, arith, length-append, length-slice,
  slice-slice, take-length_le, inl, inr,
}
use native.Mathlib.Nat.{div-add-mod', mod-lt}
use go_binsync.Int64.{add64, lt64}
use go_binsync.Cz.{Codecs, compress, decompress}
use go_binsync.Cz.RoundTrip.{IsLossless, decompress-compress}
use go_binsync.Release.Hash.{Hash}
use go_binsync.Release.Hash.RoundTrip.{bytes_eq_iff}
use go_binsync.Release.Pointer.{Frame, frame_size}
use go_binsync.Release.Blob.Places.{
  mul_suc, mul_add, le_mul, max-cases, slice_empty, slice-middle, lay_out-extends,
}
use go_binsync.Release.Blob.{
  encode_frame, encode_frames, lay_out, encode_blob, BlobError, decode_frame, add_lens, plain_size,
  out_of_order, check_frames, check,
}

-- The bytes of each frame, decoded and put one after the other.
pub decode_all : Codecs → (List ℕ → Hash) → List ℕ → List Frame → Result BlobError (List ℕ)
decode_all c hash_of object [] = ok []
decode_all c hash_of object (f ∷ rest) = do
  b ← decode_frame c hash_of f (slice f.zoff (f.zoff + f.zlen) object)
  bs ← decode_all c hash_of object rest
  ok (b ++ bs)

decode_frame-ok :
    (c : Codecs) (hash_of : List ℕ → Hash) (f : Frame) (z b : List ℕ)
    → f.zlen ≡ length z
    → f.b3 ≡ hash_of z
    → decompress c f.codec z f.len ≡ ok b
    → decode_frame c hash_of f z ≡ ok b
unfolding decode_frame
decode_frame-ok c hash_of f z b size same plain =
    rw
      ((==_iff (length z) f.zlen).1 (sym size), (bytes_eq_iff (hash_of z) f.b3).1 (sym same), plain)
      refl

module _ (c : Codecs) (lossless : IsLossless c) (hash_of : List ℕ → Hash) (content : List ℕ)
    (frame : ℕ) (positive : 1 ≤ frame) (fits : frame ≤ frame_size)
    (small : length content < 2 ^ 62) where
  abbrev pub total : ℕ
  total = length content

  -- Frame `i`, where it is one of the frames of the content.
  abbrev pub chunk : ℕ → List ℕ
  chunk i = slice (i * frame) (min (i * frame + frame) total) content

  length-chunk :
      (i : ℕ) → i * frame ≤ total → length (chunk i) ≡ min (i * frame + frame) total - i * frame
  length-chunk i h =
      length-slice (i * frame) (min (i * frame + frame) total) content (omega arith) (omega arith)

  pub decode_frame-encode_frame :
      (i zoff : ℕ)
      → i * frame ≤ total
      → let (f, z) = encode_frame c hash_of frame content i in
        decode_frame c hash_of (record f { zoff = zoff }) z ≡ ok (chunk i)
  unfolding encode_frame
  decode_frame-encode_frame i zoff h = decode_frame-ok c hash_of _ _ _ refl refl (
      ap (decompress c (compress c (chunk i)).codec (compress c (chunk i)).bytes)
        (sym (length-chunk i h))
      ∙ (decompress-compress c (chunk i) lossless (omega (arith, length-chunk i h))).0)

  next_chunk :
      (k i : ℕ)
      → i * frame ≤ total
      → chunk i ++ slice (min ((i + 1) * frame) total) (min ((i + 1 + k) * frame) total) content
        ≡ slice (min (i * frame) total) (min ((i + suc k) * frame) total) content
  next_chunk k i h =
      let start : min (i * frame) total ≡ i * frame = omega arith in
      let middle : min ((i + 1) * frame) total ≡ min (i * frame + frame) total = omega arith in
      let last : min ((i + 1 + k) * frame) total ≡ min ((i + suc k) * frame) total = omega arith in
      rw (start, middle, last)
        (slice-slice (i * frame) (min (i * frame + frame) total) (min ((i + suc k) * frame) total)
          content (omega arith) (omega arith))

  decode_all-lay_out :
      (k i : ℕ) (out object : List ℕ)
      → (lay_out out (encode_frames c hash_of frame content k i)).1 ≡ object
      → (i + k) * frame ≤ total + frame
      → decode_all c hash_of object (lay_out out (encode_frames c hash_of frame content k i)).0
        ≡ ok (slice (min (i * frame) total) (min ((i + k) * frame) total) content)
  unfolding encode_frames lay_out decode_all
  decode_all-lay_out zero i out object e h = ap ok (
      sym (slice_empty (min (i * frame) total) (min ((i + 0) * frame) total) content (omega arith)))
  decode_all-lay_out (suc k) i out object e h =
      let z = (compress c (chunk i)).bytes in
      let in_range : i * frame ≤ total = omega arith in
      let (tail, shape) =
        lay_out-extends (out ++ z) (encode_frames c hash_of frame content k (i + 1)) in
      let found : slice (length out) (length out + length z) object ≡ z =
        ap (slice (length out) (length out + length z)) (sym e ∙ shape) ∙ slice-middle out z tail in
      let more = decode_all-lay_out k (i + 1) (out ++ z) object e (omega arith) in
      rw (found, decode_frame-encode_frame i (length out) in_range, more)
        (ap ok (next_chunk k i in_range))

  frame_in_order :
      (i off zoff : ℕ)
      → i * frame ≤ total
      → off ≡ i * frame
      → out_of_order off zoff (record ((encode_frame c hash_of frame content i).0) { zoff = zoff })
        ≡ false
  unfolding encode_frame out_of_order lt64
  frame_in_order i off zoff h e =
      let src : length (chunk i) ≡ min (i * frame + frame) total - i * frame = length-chunk i h in
      let le = (decompress-compress c (chunk i) lossless (omega (arith, src))).1 in
      ground (arith, src, le)

  length-next :
      (i : ℕ) (out : List ℕ)
      → i * frame ≤ total
      → length out ≤ i * frame
      → length (out ++ (encode_frame c hash_of frame content i).1) ≤ min ((i + 1) * frame) total
  unfolding encode_frame
  length-next i out h le = omega (
    arith,
    length-append out (compress c (chunk i)).bytes,
    length-chunk i h,
    (decompress-compress c (chunk i) lossless (omega (arith, length-chunk i h))).1,
  )

  check_frames-lay_out :
      (k i size off : ℕ) (out : List ℕ)
      → length (lay_out out (encode_frames c hash_of frame content k i)).1 ≡ size
      → (i + k) * frame ≤ total + frame
      → (1 ≤ k → off ≡ i * frame)
      → length out ≤ min (i * frame) total
      → check_frames size off
          (length out)
          (lay_out out (encode_frames c hash_of frame content k i)).0
        ≡ ok tt
  unfolding encode_frames lay_out check_frames
  check_frames-lay_out zero i size off out e h at le = rw ((==_iff (length out) size).1 e) refl
  check_frames-lay_out (suc k) i size off out e h at le =
      let in_range : i * frame ≤ total = omega arith in
      let z = (encode_frame c hash_of frame content i).1 in
      let next = length-next i out in_range (omega arith) in
      let next_off : 1 ≤ k
          → add64 off (min (i * frame + frame) total - i * frame) ≡ (i + 1) * frame =
        λ k_pos.
          unfold add64 in
          omega
            (arith, at (omega arith), mul_suc i frame, le_mul k frame k_pos, mul_add i k frame) in
      let moved : add64 (length out) (length z) ≡ length (out ++ z) =
        unfold add64 in omega (arith, length-append out z) in
      let more =
        check_frames-lay_out k (i + 1) size (add64 off (min (i * frame + frame) total - i * frame))
          (out ++ z) e (omega arith) (λ k_pos. next_off k_pos) next in
      rw (frame_in_order i off (length out) in_range (at (omega arith)), moved, more) refl

  add_lens-lay_out :
      (k i : ℕ) (out : List ℕ)
      → (i + k) * frame ≤ total + frame
      → add_lens (min (i * frame) total) (lay_out out (encode_frames c hash_of frame content k i)).0
        ≡ min ((i + k) * frame) total
  unfolding encode_frames lay_out add_lens encode_frame
  add_lens-lay_out zero i out h = omega arith
  add_lens-lay_out (suc k) i out h =
      let sum : add64 (min (i * frame) total) (min (i * frame + frame) total - i * frame)
          ≡ min ((i + 1) * frame) total =
        unfold add64 in omega arith in
      ap
        (λ (n : ℕ).
          add_lens n
            (lay_out (out ++ (encode_frame c hash_of frame content i).1)
              (encode_frames c hash_of frame content k (i + 1))).0)
        sum
      ∙ add_lens-lay_out k (i + 1) _ (omega arith)
      ∙ ap (λ (n : ℕ). min (n * frame) total) {x = i + 1 + k} (omega arith)

  -- The number of frames covers the content and no more than a frame beyond it.
  abbrev pub count : ℕ
  count = max ((total + frame - 1) / frame) 1

  pub count-fits : ((0 + count) * frame ≤ total + frame) × (min ((0 + count) * frame) total ≡ total)
  count-fits =
      let q = (total + frame - 1) / frame in
      let quotient = div-add-mod' (total + frame - 1) frame in
      let remainder = mod-lt (total + frame - 1) {m = frame} positive in
      elim (max-cases q) [
        | inl (is_quotient, ge) ↦
            rw is_quotient (omega (arith, quotient, remainder), omega (arith, quotient, remainder))
        | inr (is_one, none_whole) ↦
            rw is_one (
              omega arith,
              omega (arith, ap (λ (n : ℕ). n * frame) none_whole, quotient, remainder),
            )
      ]

  abbrev placed : List Frame × List ℕ
  placed = lay_out [] (encode_frames c hash_of frame content count 0)

  at_start : min (0 * frame) total ≡ 0
  at_start = omega arith

  check_frames-placed : check_frames (length placed.1) 0 0 placed.0 ≡ ok tt
  check_frames-placed =
      check_frames-lay_out count 0 _ 0 [] refl count-fits.0 (λ _. omega arith) (omega arith)

  add_lens-placed : add_lens 0 placed.0 ≡ total
  add_lens-placed =
      ap (λ (n : ℕ). add_lens n placed.0) (sym at_start)
      ∙ add_lens-lay_out count 0 [] count-fits.0
      ∙ count-fits.1

  decode_all-placed : decode_all c hash_of placed.1 placed.0 ≡ ok content
  decode_all-placed =
      decode_all-lay_out count 0 [] placed.1 refl count-fits.0
      ∙ ap (λ (lo : ℕ). ok (slice lo (min ((0 + count) * frame) total) content)) at_start
      ∙ ap (λ (hi : ℕ). ok (slice 0 hi content)) count-fits.1
      ∙ ap ok (take-length_le (total - 0) content (omega arith))

-- For compressors that give back what they are given, a frame size from 1 to FrameSize and a content
-- below 2^62 bytes: Check accepts the blob of encodeBlob, PlainSize is the length of the content, and
-- its frames, each cut from the object by its place and decoded by DecodeFrame, are the content.
pub decode_all-encode_blob :
    (c : Codecs) (hash_of : List ℕ → Hash) (h : Hash) (content : List ℕ) (frame : ℕ)
    → IsLossless c
    → 1 ≤ frame
    → frame ≤ frame_size
    → length content < 2 ^ 62
    → let (object, blob) = encode_blob c hash_of h content frame in
      (check blob ≡ ok tt)
      × (plain_size blob ≡ length content)
      × (decode_all c hash_of object blob.frames ≡ ok content)
unfolding encode_blob check plain_size
decode_all-encode_blob c hash_of h content frame lossless positive fits small = (
  check_frames-placed c lossless hash_of content frame positive fits small,
  add_lens-placed c lossless hash_of content frame positive fits small,
  decode_all-placed c lossless hash_of content frame positive fits small,
)
