-- ===== src/Agent/Frames/Encoded.antt =====
-- The blob that encodeBlob makes describes its content.
use go_binsync.Prelude.{
  ℕ, zero, suc, ◌+◌, ◌*◌, ◌/◌, ◌^◌, ◌≡◌, ◌≤◌, ◌<◌, inl, inr, refl, sym, ap, ◌∙◌, min, Bool, true,
  false, not, Bool-cases, List, [], ◌++◌, some, Result, ok, err, length, length-replicate,
  replicate, get_elem?, slice, ◌==◌, ==_iff, if◌then◌else◌, arith,
}
use mathlib.Core.Path.{subst}
use native.Mathlib.Nat.{div-add-mod', mod-lt}
use go_binsync.Cz.{Codecs}
use go_binsync.Cz.RoundTrip.{IsLossless}
use go_binsync.Release.Hash.{Hash, bytes_eq}
use go_binsync.Release.Hash.RoundTrip.{bytes_eq_iff}
use go_binsync.Release.Pointer.{Frame, Head, frame_size}
use go_binsync.Release.Blob.{
  encode_frame, encode_frames, lay_out, encode_blob, BlobError, decode_frame,
}
use go_binsync.Release.Blob.RoundTrip.{
  count, count-fits, decode_frame-encode_frame, decode_all-encode_blob,
}
use go_binsync.Varint.{is_neg}
use go_binsync.Agent.Frames.{Pass, Reach, IsEnded, fetch_start}
use go_binsync.Agent.Frames.Arrived.{Describes, Reach-content}

-- What decode_frame has checked of the bytes of a frame.
decode_frame-checked :
    (c : Codecs) (hash_of : List ℕ → Hash) (f : Frame) (z plain : List ℕ)
    → decode_frame c hash_of f z ≡ ok plain
    → hash_of z ≡ f.b3
unfolding decode_frame
decode_frame-checked c hash_of f z plain h = elim (Bool-cases (bytes_eq (hash_of z) f.b3)) [
  | inl same ↦ (bytes_eq_iff (hash_of z) f.b3).0 same
  | inr differs ↦ absurd (refused (length z == f.zlen) (rw differs at h))
]
  where
    refused :
        (b : Bool)
        → (if not b then err BlobError.frame_size_wrong else err BlobError.frame_hash_wrong)
          ≡ ok plain
        → ⊥
    refused true e = cc
    refused false e = cc

module _ (c : Codecs) (hash_of : List ℕ → Hash) (frame : ℕ) (content : List ℕ) where
  -- The frame table, entry by entry.
  abbrev entry : ℕ → ℕ → Frame
  entry zoff i = record (encode_frame c hash_of frame content i).0 { zoff = zoff }

  get_elem?-lay_out :
      (k start : ℕ) (out : List ℕ) (i : ℕ)
      → i < k
      → (zoff : ℕ) × (get_elem? (lay_out out (encode_frames c hash_of frame content k start)).0 i
          ≡ some (entry zoff (start + i)))
  unfolding lay_out encode_frames
  get_elem?-lay_out zero start out i h = absurd (omega arith)
  get_elem?-lay_out (suc k) start out zero h = (
    length out,
    ap (λ (j : ℕ). some (entry (length out) j)) {x = start} {y = start + 0} (omega arith),
  )
  get_elem?-lay_out (suc k) start out (suc i) h =
      let (zoff, e) =
        get_elem?-lay_out k (start + 1) (out ++ (encode_frame c hash_of frame content start).1) i
          (omega arith) in
      (
        zoff,
        e
            ∙ ap (λ (j : ℕ). some (entry zoff j)) {x = start + 1 + i} {y = start + suc i}
                (omega arith),
      )

  get_elem?-lay_out_lt :
      (k start : ℕ) (out : List ℕ) (i : ℕ) (f : Frame)
      → get_elem? (lay_out out (encode_frames c hash_of frame content k start)).0 i ≡ some f
      → i < k
  unfolding lay_out encode_frames
  get_elem?-lay_out_lt zero start out i f h = absurd (cc)
  get_elem?-lay_out_lt (suc k) start out zero f h = omega arith
  get_elem?-lay_out_lt (suc k) start out (suc i) f h = omega (
    arith,
    get_elem?-lay_out_lt k (start + 1) (out ++ (encode_frame c hash_of frame content start).1) i f
        h,
  )

frames_bound : (i n frame : ℕ) → i < n → i * frame + frame ≤ n * frame
frames_bound i zero frame h = elim h [ ]
frames_bound i (suc n) frame h = grind arith

index_lt : (i n frame k : ℕ) → i * frame ≤ k → k < n * frame → i < n
index_lt i n frame k h l = grind arith

module _ (c : Codecs) (lossless : IsLossless c) (hash_of : List ℕ → Hash) (content : List ℕ)
    (frame : ℕ) (positive : 1 ≤ frame) (fits : frame ≤ frame_size)
    (small : length content < 2 ^ 62) where
  -- The hash tells the frames of the content, as they are sent, from all other bytes.
  abbrev pub Apart : Type 0
  Apart =
      (i : ℕ) (z : List ℕ)
      → let sent = (encode_frame c hash_of frame content i).1 in hash_of z ≡ hash_of sent → z ≡ sent

  abbrev many : ℕ
  many = count c lossless hash_of content frame positive fits small

  inside : (i : ℕ) → i < many → i * frame ≤ length content
  inside i h =
      let all = count-fits c lossless hash_of content frame positive fits small in
      omega (arith, all.0, frames_bound i many frame h)

  some_inj : {x y : Frame} → some x ≡ some y → x ≡ y
  some_inj e = cc

  same_value : {x y : List ℕ} → ◌≡◌ {A = Result BlobError (List ℕ)} (ok x) (ok y) → x ≡ y
  same_value e = cc

  -- What passes for frame `i` is that part of the content.
  Part : Frame → List ℕ → Type 0
  Part f plain = (f.off + f.len ≤ length content) × (plain ≡ slice f.off (f.off + f.len) content)

  entry-Part :
      (i zoff : ℕ) (z plain : List ℕ)
      → Apart
      → i * frame ≤ length content
      → decode_frame c hash_of (entry c hash_of frame content zoff i) z ≡ ok plain
      → Part (entry c hash_of frame content zoff i) plain
  unfolding Part
  entry-Part i zoff z plain apart le got =
      let f = entry c hash_of frame content zoff i in
      let sent = (encode_frame c hash_of frame content i).1 in
      let same =
        apart i z (decode_frame-checked c hash_of f z plain got ∙ unfold encode_frame in refl) in
      let chunk_of =
        decode_frame-encode_frame c lossless hash_of content frame positive fits small i zoff le in
      let is_chunk = same_value (sym got ∙ ap (decode_frame c hash_of f) same ∙ chunk_of) in
      unfold encode_frame in
      (
        omega arith,
        is_chunk
            ∙ ap (λ (hi : ℕ). slice (i * frame) hi content)
                {x = min (i * frame + frame) (length content)} (omega arith),
      )

  pub encode_blob-Describes :
      (h : Hash) → Apart → Describes c hash_of (encode_blob c hash_of h content frame).1 content
  unfolding encode_blob Part
  encode_blob-Describes h apart = record {
    piece = λ i f z plain is_f got.
        let lt = get_elem?-lay_out_lt c hash_of frame content many 0 [] i f is_f in
        let (zoff, e) = get_elem?-lay_out c hash_of frame content many 0 [] i lt in
        let same : f ≡ entry c hash_of frame content zoff i = some_inj (
          sym is_f
          ∙ e
          ∙ ap (λ (j : ℕ). some (entry c hash_of frame content zoff j)) {x = 0 + i}
              (omega arith)) in
        subst (λ x. Part x plain) (sym same)
          (entry-Part i zoff z plain apart (inside i lt)
            (subst (λ x. decode_frame c hash_of x z ≡ ok plain) same got));
    cover = λ k l.
        let all = count-fits c lossless hash_of content frame positive fits small in
        let i = k / frame in
        let quotient = div-add-mod' k frame in
        let remainder = mod-lt k {m = frame} positive in
        let lt = index_lt i many frame k (omega (arith, quotient)) (omega (arith, all.1)) in
        let (zoff, e) = get_elem?-lay_out c hash_of frame content many 0 [] i lt in
        (
          i,
          entry c hash_of frame content zoff (0 + i),
          e,
          unfold encode_frame in omega (arith, quotient),
          unfold encode_frame in omega (arith, quotient, remainder),
        );
  }

  -- A blob that encodeBlob makes, with lossless compressors, in frames of at most FrameSize
  -- bytes, of a content of less than 2^62 bytes whose frames the hash tells from all other bytes:
  -- fetchBlob, for a head that names the content's length, passes its checks and makes a buffer
  -- of that length; and when all workers of a pass have left and its context is not done, the
  -- buffer is the content, in whatever order the frames were taken and came in, whatever requests
  -- failed, and however many passes there were before.
  pub fetch_blob-encode_blob :
      (h : Hash) (head : Head) (p : Pass)
      → Apart
      → head.size ≡ length content
      → Reach c hash_of (encode_blob c hash_of h content frame).1 (replicate (length content) 0) p
      → IsEnded c hash_of (encode_blob c hash_of h content frame).1 p
      → p.over ≡ false
      → (fetch_start c hash_of (encode_blob c hash_of h content frame).1 head
          ≡ ok (replicate (length content) 0))
        × (p.out ≡ content)
  unfolding fetch_start
  fetch_blob-encode_blob h head p apart size reach ended running =
      let (checked, sized, _) =
        decode_all-encode_blob c hash_of h content frame lossless positive fits small in
      let equal : (length content == head.size) ≡ true =
        (==_iff (length content) head.size).1 (sym size) in
      let no_sign : is_neg head.size ≡ false = ground (arith, size, small) in
      (
        rw (fetch_start, checked, sized, equal, no_sign) (ap (λ (n : ℕ). ok (replicate n 0)) size),
        Reach-content c hash_of (encode_blob c hash_of h content frame).1 content
            (replicate (length content) 0) p (encode_blob-Describes h apart)
            (length-replicate (length content) 0) reach ended running,
      )
