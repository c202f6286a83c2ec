-- ===== src/Release/Blob/Check.antt =====
-- What a frame table that Check accepts promises a fetcher, and what it does not.
use go_binsync.Prelude.{
  ℕ, ◌+◌, ◌*◌, ◌^◌, ◌≤◌, ◌<◌, ◌≡◌, refl, Bool, true, false, List, [], ◌∷◌, Result, ok, err, length,
  All, if◌then◌else◌, arith,
}
use go_binsync.Int64.{add64, lt64}
use go_binsync.Release.Pointer.{Frame, Blob, frame_size}
use go_binsync.Release.Blob.{add_lens, plain_size, out_of_order, check_frames, check, BlobError}

-- The length is the bits of an int64.
abbrev pub IsInt64 : Frame → Type 0
IsInt64 f = f.len < 2 ^ 64

in_order :
    (off zoff : ℕ) (f : Frame)
    → IsInt64 f
    → out_of_order off zoff f ≡ false
    → (f.off ≡ off) × (f.len ≤ frame_size)
unfolding out_of_order lt64
in_order off zoff f h e = ground arith

if_err-ok :
    (b : Bool) (e : BlobError) (x : Result BlobError (Unit {0}))
    → (if b then err e else x) ≡ ok tt
    → (b ≡ false) × (x ≡ ok tt)
if_err-ok true e x h = cc
if_err-ok false e x h = (refl, h)

-- The frames are next to each other, and none of them ends behind PlainSize.
abbrev pub Inside : ℕ → Frame → Type 0
Inside n f = f.off + f.len ≤ n

inside :
    (size off zoff n : ℕ) (fs : List Frame)
    → All IsInt64 fs
    → off + length fs * frame_size < 2 ^ 63
    → check_frames size off zoff fs ≡ ok tt
    → add_lens off fs ≡ n
    → (off ≤ n) × All (Inside n) fs
unfolding check_frames add_lens
inside size off zoff n [] h k e total = (omega arith, tt)
inside size off zoff n (f ∷ rest) (hf, hs) k e total =
    let (order, more) = if_err-ok _ _ _ e in
    let (at_off, fits) = in_order off zoff f hf order in
    let sum : add64 off f.len ≡ off + f.len = unfold add64 in omega arith in
    let (le, all) =
      inside size (add64 off f.len) (add64 zoff f.zlen) n rest hs (omega arith) more total in
    (omega arith, (omega arith, all))

-- Where Check accepts a frame table with fewer than 2^40 frames, each frame ends within PlainSize bytes, so that a fetcher
-- that has set aside as many writes inside them.
pub check-Inside :
    (b : Blob)
    → All IsInt64 b.frames
    → length b.frames < 2 ^ 40
    → check b ≡ ok tt
    → All (Inside (plain_size b)) b.frames
unfolding check plain_size
check-Inside b h k e = (inside b.size 0 0 _ b.frames h (omega arith) e refl).1

-- Check bounds the length of a frame in the binary, but not in the object: a table of one frame
-- of any compressed length passes.
pub check-unbounded :
    (f : Frame) (key : List ℕ) (n : ℕ)
    → n < 2 ^ 63
    → f.off ≡ 0
    → f.zoff ≡ 0
    → f.len ≤ frame_size
    → check (record { key = key; size = n; frames = record f { zlen = n } ∷ [] }) ≡ ok tt
unfolding check check_frames add64 out_of_order lt64
check-unbounded f key n h o z l = ground arith
