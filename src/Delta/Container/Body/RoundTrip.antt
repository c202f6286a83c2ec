-- ===== src/Delta/Container/Body/RoundTrip.antt =====
-- readBody gives back what frameBody was given.
use go_binsync.Prelude.{
  ℕ, zero, suc, ◌+◌, ◌-◌, ◌*◌, ◌/◌, ◌^◌, ◌≤◌, ◌<◌, ◌≡◌, refl, sym, ap, ◌∙◌, true, false, ◌&&◌, ◌||◌,
  min, List, [], ◌++◌, ok, ◌⊎◌, inl, inr, length, drop, take, slice, ltb, ◌==◌, ==_iff, Bool-cases,
  arith, length-append, length-slice, take-append, drop-append, append_assoc, append-nil,
  drop-slice, drop-length_le,
}
use go_binsync.Int64.{add64}
use go_binsync.Cz.{Codecs, compress, decompress}
use go_binsync.Cz.RoundTrip.{IsLossless, decompress-compress}
use go_binsync.Release.Hash.{Hash}
use go_binsync.Release.Hash.RoundTrip.{bytes_eq_iff}
use go_binsync.Delta.Container.{Frame, Header, frame_size, max_patch_size, add_zlens, size}
use go_binsync.Delta.Container.RoundTrip.{AreFrames}
use go_binsync.Delta.Container.Body.{
  add_frame, frame_loop, frame_body, open_frame, next, read_loop, read_body,
}

open_frame-ok :
    (c : Codecs) (hash_of : List ℕ → Hash) (pre z post b : List ℕ) (f : Frame)
    → f.zlen ≡ length z
    → f.b3 ≡ hash_of z
    → decompress c f.codec z f.len ≡ ok b
    → open_frame c hash_of (pre ++ (z ++ post)) (length pre) f ≡ ok b
unfolding open_frame
open_frame-ok c hash_of pre z post b f size same plain =
    let cut : slice (length pre) (length pre + f.zlen) (pre ++ (z ++ post)) ≡ z =
      ap (λ t. take (length pre + f.zlen - length pre) t)
        (drop-append pre (z ++ post) (length pre) refl)
      ∙ take-append z post (length pre + f.zlen - length pre) (omega (arith, size)) in
    let inside : ltb (length (pre ++ (z ++ post))) (length pre + f.zlen) ≡ false =
      ground (arith, length-append pre (z ++ post), length-append z post, size) in
    rw (inside, cut, (bytes_eq_iff (hash_of z) f.b3).1 (sym same), plain) refl

module _ (c : Codecs) (lossless : IsLossless c) (hash_of : List ℕ → Hash) (body : List ℕ)
    (small : length body < 2 ^ 62) where
  -- What is left of the body from `off` on goes into the frames `p` with their bytes.
  record Holds (off : ℕ) (p : List Frame × List ℕ) : Type 0 where
    bytes_le : length p.1 ≤ length body - off
    reads :
        (pre acc : List ℕ)
        → read_loop c hash_of (pre ++ p.1) (length pre) p.0 acc ≡ ok (acc ++ drop off body)
    sums : (n : ℕ) → n + length p.1 < 2 ^ 64 → add_zlens n p.0 ≡ n + length p.1
    in_order :
        length body ≤ max_patch_size → ((b : List ℕ) → length (hash_of b) ≡ 32) → AreFrames off p.0

  nothing-Holds : (off : ℕ) → length body ≤ off → Holds off ([], [])
  unfolding read_loop add_zlens
  nothing-Holds off h = record {
    bytes_le = omega arith;
    reads = λ pre acc.
        ap ok (sym (append-nil acc) ∙ ap (λ t. acc ++ t) (sym (drop-length_le off body h)));
    sums = λ n k. omega arith;
    in_order = λ k d. tt;
  }

  abbrev frame_of : ℕ → List ℕ → Frame
  frame_of off src = record {
    off = off;
    len = length src;
    zlen = length (compress c src).bytes;
    codec = (compress c src).codec;
    b3 = hash_of (compress c src).bytes;
  }

  add_frame-Holds :
      (off end_of : ℕ) (p : List Frame × List ℕ)
      → off ≤ end_of
      → end_of ≤ length body
      → end_of ≤ off + frame_size
      → Holds end_of p
      → Holds off (add_frame c hash_of off (slice off end_of body) p)
  unfolding add_frame read_loop add_zlens
  add_frame-Holds off end_of p lo hi near h =
      let src = slice off end_of body in
      let z = (compress c src).bytes in
      let src_size : length src ≡ end_of - off = length-slice off end_of body lo hi in
      let (back, z_le) = decompress-compress c src lossless (omega (arith, src_size)) in
      record {
        bytes_le = omega (arith, length-append z p.1, h.bytes_le, z_le, src_size);
        reads = λ pre acc.
            ap
              (λ x. next x (λ out.
                read_loop c hash_of (pre ++ (z ++ p.1)) (length pre + length z) p.0 (acc ++ out)))
              (open_frame-ok c hash_of pre z p.1 src (frame_of off src) refl refl back)
            ∙ ap (λ t. read_loop c hash_of t (length pre + length z) p.0 (acc ++ src))
                (sym (append_assoc pre z p.1))
            ∙ ap (λ (n : ℕ). read_loop c hash_of ((pre ++ z) ++ p.1) n p.0 (acc ++ src))
                (sym (length-append pre z))
            ∙ h.reads (pre ++ z) (acc ++ src)
            ∙ ap ok (
                append_assoc acc src (drop end_of body)
                ∙ ap (λ t. acc ++ t) (drop-slice off end_of body lo));
        sums = λ n k.
            let moved : add64 n (length z) ≡ n + length z =
              unfold add64 in omega (arith, length-append z p.1, k) in
            ap (λ (m : ℕ). add_zlens m p.0) moved
            ∙ h.sums (n + length z) (omega (arith, length-append z p.1, k))
            ∙ omega (arith, length-append z p.1);
        in_order = λ k d.
            let behind : off + length src ≡ end_of = omega (arith, src_size) in
            (
              record {
                off_le = omega arith;
                len_le = omega (arith, src_size);
                zlen_le = omega (arith, z_le, src_size);
                b3_size = d z;
              },
              refl,
              rw behind (h.in_order k d),
            );
      }

  frame_loop-Holds :
      (n off : ℕ)
      → (off < length body) ⊎ ((off ≡ 0) × (length body ≡ 0))
      → length body < off + n * frame_size
      → Holds off (frame_loop n c hash_of body off)
  unfolding frame_loop
  frame_loop-Holds zero off at h = absurd (omega arith)
  frame_loop-Holds (suc n) off at h =
      rw (goes_on off at) elim (Bool-cases (min (off + frame_size) (length body) == length body)) [
        | inl at_end ↦ rw at_end (
            add_frame-Holds off (min (off + frame_size) (length body)) ([], []) (omega arith)
              (omega arith) (omega arith) (nothing-Holds _ (ground arith)))
        | inr more ↦
            let whole : min (off + frame_size) (length body) ≡ off + frame_size =
              whole_frame off more in
            let below : off + frame_size < length body = below_end off more in
            rw (more, whole)
              (add_frame-Holds off (off + frame_size) _ (omega arith) (omega arith) (omega arith)
                (frame_loop-Holds n (off + frame_size) (inl below) (omega arith)))
      ]
    where
      whole_frame :
          (off : ℕ)
          → (min (off + frame_size) (length body) == length body) ≡ false
          → min (off + frame_size) (length body) ≡ off + frame_size
      whole_frame off e = ground arith

      below_end :
          (off : ℕ)
          → (min (off + frame_size) (length body) == length body) ≡ false
          → off + frame_size < length body
      below_end off e = ground arith

      goes_on :
          (off : ℕ)
          → (off < length body) ⊎ ((off ≡ 0) × (length body ≡ 0))
          → (ltb off (length body) || (off == 0 && length body == 0)) ≡ true
      goes_on off at = ground arith

start : (n : ℕ) → (0 < n) ⊎ (◌≡◌ {A = ℕ} 0 0 × (n ≡ 0))
start zero = inr (refl, refl)
start (suc n) = inl (omega arith)

-- For compressors that give back what they are given and a body below 2^62 bytes: readBody, of a header with the
-- frames of frameBody whose BodyOff is the length of what stands in front of their bytes, gives the body.
pub read_body-frame_body :
    (c : Codecs) (hash_of : List ℕ → Hash) (h : Header) (prologue body : List ℕ)
    → IsLossless c
    → length body < 2 ^ 62
    → length prologue < 2 ^ 62
    → h.body_off ≡ length prologue
    → h.frames ≡ (frame_body c hash_of body).0
    → read_body c hash_of h (prologue ++ (frame_body c hash_of body).1) ≡ ok body
unfolding read_body size frame_body
read_body-frame_body c hash_of h prologue body lossless small short at frames =
    let p = frame_loop (length body / frame_size + 1) c hash_of body 0 in
    let holds =
      frame_loop-Holds c lossless hash_of body small (length body / frame_size + 1) 0
        (start (length body)) (omega arith) in
    let total : length (prologue ++ p.1) ≡ add_zlens (length prologue) p.0 =
      length-append prologue p.1
      ∙ sym (holds.sums (length prologue) (omega (arith, holds.bytes_le))) in
    rw (at, frames, (==_iff (length (prologue ++ p.1)) (add_zlens (length prologue) p.0)).1 total)
      (holds.reads prologue [])

frame_loop-count :
    (n : ℕ) (c : Codecs) (hash_of : List ℕ → Hash) (body : List ℕ) (off : ℕ)
    → length (frame_loop n c hash_of body off).0 ≤ n
unfolding frame_loop add_frame
frame_loop-count zero c hash_of body off = omega arith
frame_loop-count (suc n) c hash_of body off =
    let end_of = min (off + frame_size) (length body) in
    ground (arith, frame_loop-count n c hash_of body (off + frame_size))

-- The frames of a body keep within the limits of the format, and follow each other.
pub frame_body-AreFrames :
    (c : Codecs) (hash_of : List ℕ → Hash) (body : List ℕ)
    → IsLossless c
    → ((b : List ℕ) → length (hash_of b) ≡ 32)
    → length body ≤ max_patch_size
    → AreFrames 0 (frame_body c hash_of body).0 × (length (frame_body c hash_of body).0 ≤ 2 ^ 20)
unfolding frame_body
frame_body-AreFrames c hash_of body lossless sized small =
    let n = length body / frame_size + 1 in
    let holds =
      frame_loop-Holds c lossless hash_of body (omega arith) n 0 (start (length body))
        (omega arith) in
    (holds.in_order small sized, omega (arith, frame_loop-count n c hash_of body 0))
