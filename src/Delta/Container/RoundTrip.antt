-- ===== src/Delta/Container/RoundTrip.antt =====
-- ParseHeader reads back what marshalHeader writes.
use go_binsync.Prelude.{
  ℕ, ◌+◌, ◌-◌, ◌*◌, ◌^◌, ◌≤◌, ◌<◌, ◌≡◌, refl, sym, ap, ◌∙◌, List, [], ◌∷◌, ◌++◌, ok, length, ==_iff,
  arith, length-append, append_assoc, append-nil,
}
use go_binsync.Int64.{add64}
use go_binsync.Varint.{put_uvarint}
use go_binsync.Release.Hash.{bytes_eq}
use go_binsync.Delta.Buf
use go_binsync.Delta.Buf.{Rbuf, reading}
use go_binsync.Delta.Buf.Put
use go_binsync.Delta.Buf.Laws.{un-put, take_bytes-append, bytes-put}
use go_binsync.Delta.Correct.RoundTrip.Bounds.{length-put_uvarint}
use go_binsync.Delta.Container.{
  Frame, Header, frame_size, max_patch_size, put_frame, put_frames, put_record, marshal_header,
  filled, read_frame, read_frames, read_record, parse_header,
}

pub record IsFrame (f : Frame) : Type 0 where
  pub off_le : f.off ≤ max_patch_size
  pub len_le : f.len ≤ frame_size
  pub zlen_le : f.zlen ≤ max_patch_size
  pub b3_size : length f.b3 ≡ 32

-- Each frame starts where the one before it ends.
abbrev pub AreFrames : ℕ → List Frame → Type 0
AreFrames off [] = Unit {0}
AreFrames off (f ∷ rest) = IsFrame f × (f.off ≡ off) × AreFrames (off + f.len) rest

pub record IsHeader (h : Header) : Type 0 where
  pub source_size : length h.source ≡ 32
  pub target_size : length h.target ≡ 32
  pub old_le : h.old_size ≤ max_patch_size
  pub new_le : h.new_size ≤ max_patch_size
  pub count_le : length h.frames ≤ 2 ^ 20
  pub contiguous : AreFrames 0 h.frames

abbrev frame_bytes : Frame → List ℕ → List ℕ
frame_bytes f rest =
    put_uvarint f.off ++ (put_uvarint f.len ++ (put_uvarint f.zlen ++ (f.codec ∷ (f.b3 ++ rest))))

abbrev frames_bytes : List Frame → List ℕ → List ℕ
frames_bytes [] rest = rest
frames_bytes (f ∷ fs) rest = frame_bytes f (frames_bytes fs rest)

put_frame-eq :
    (w : List ℕ) (f : Frame) (rest : List ℕ) → put_frame w f ++ rest ≡ w ++ frame_bytes f rest
unfolding put_frame Put.u Put.raw
put_frame-eq w f rest = simp append_assoc refl

put_frames-eq :
    (w : List ℕ) (fs : List Frame) (rest : List ℕ)
    → put_frames w fs ++ rest ≡ w ++ frames_bytes fs rest
unfolding put_frames
put_frames-eq w [] rest = refl
put_frames-eq w (f ∷ fs) rest =
    put_frames-eq (put_frame w f) fs rest ∙ put_frame-eq w f (frames_bytes fs rest)

take_hash :
    (b rest : List ℕ) → length b ≡ 32 → Buf.take_bytes (reading (b ++ rest)) 32 ≡ (b, reading rest)
take_hash b rest h = ap (Buf.take_bytes (reading (b ++ rest))) (sym h) ∙ take_bytes-append b rest

filled-full : (b : List ℕ) → length b ≡ 32 → filled b ≡ b
filled-full [] h = absurd (omega arith)
filled-full (x ∷ b) h = refl

read_frame-frame_bytes :
    (f : Frame) (rest : List ℕ)
    → IsFrame f
    → read_frame (reading (frame_bytes f rest)) ≡ (f, reading rest)
unfolding read_frame Buf.byte
read_frame-frame_bytes f rest v =
    rw
      (
        un-put f.off max_patch_size
            (put_uvarint f.len ++ (put_uvarint f.zlen ++ (f.codec ∷ (f.b3 ++ rest))))
            (omega (arith, v.off_le)) v.off_le,
        un-put f.len frame_size (put_uvarint f.zlen ++ (f.codec ∷ (f.b3 ++ rest)))
            (omega (arith, v.len_le)) v.len_le,
        un-put f.zlen max_patch_size (f.codec ∷ (f.b3 ++ rest)) (omega (arith, v.zlen_le))
            v.zlen_le,
        take_hash f.b3 rest v.b3_size,
        filled-full f.b3 v.b3_size,
      )
      refl

read_frames-frames_bytes :
    (fs : List Frame) (off : ℕ) (acc : List Frame) (rest : List ℕ)
    → AreFrames off fs
    → read_frames (length fs) (reading (frames_bytes fs rest)) off acc ≡ (acc ++ fs, reading rest)
unfolding read_frames
read_frames-frames_bytes [] off acc rest h =
    ap (λ (l : List Frame). (l, reading rest)) (sym (append-nil acc))
read_frames-frames_bytes (f ∷ fs) off acc rest (v, at, h) =
    let moved : add64 off f.len ≡ off + f.len = unfold add64 in omega (arith, v.off_le, v.len_le) in
    rw (read_frame-frame_bytes f (frames_bytes fs rest) v, (==_iff f.off off).1 at, moved)
      (read_frames-frames_bytes fs (off + f.len) (acc ++ (f ∷ [])) rest h
        ∙ ap (λ (l : List Frame). (l, reading rest)) (append_assoc acc (f ∷ []) fs))

-- The record behind the two hashes.
abbrev record_bytes : Header → List ℕ
record_bytes h =
    h.source
    ++ (h.target
        ++ (put_uvarint h.old_size
            ++ (put_uvarint h.new_size
                ++ (put_uvarint (length h.frames) ++ frames_bytes h.frames []))))

put_record-eq : (h : Header) → put_record h ≡ record_bytes h
unfolding put_record Put.u Put.raw
put_record-eq h =
    sym (append-nil (put_record h)) ∙ put_frames-eq _ h.frames [] ∙ simp append_assoc refl

read_record-put_record :
    (h : Header) (off : ℕ)
    → IsHeader h
    → read_record h.transform h.flags off (put_record h) ≡ ok (record h { body_off = off })
unfolding read_record Buf.done
read_record-put_record h off v =
    rw (put_record-eq h) rw
      (
        take_hash h.source
            (h.target
              ++ (put_uvarint h.old_size
                  ++ (put_uvarint h.new_size
                      ++ (put_uvarint (length h.frames) ++ frames_bytes h.frames []))))
            v.source_size,
        take_hash h.target
            (put_uvarint h.old_size
              ++ (put_uvarint h.new_size
                  ++ (put_uvarint (length h.frames) ++ frames_bytes h.frames [])))
            v.target_size,
        un-put h.old_size max_patch_size
            (put_uvarint h.new_size ++ (put_uvarint (length h.frames) ++ frames_bytes h.frames []))
            (omega (arith, v.old_le)) v.old_le,
        un-put h.new_size max_patch_size (put_uvarint (length h.frames) ++ frames_bytes h.frames [])
            (omega (arith, v.new_le)) v.new_le,
        un-put (length h.frames) (2 ^ 20) (frames_bytes h.frames []) (omega (arith, v.count_le))
            v.count_le,
        read_frames-frames_bytes h.frames 0 [] [] v.contiguous,
        filled-full h.source v.source_size,
        filled-full h.target v.target_size,
      )
      refl

length-frames_bytes :
    (fs : List Frame) (off : ℕ) → AreFrames off fs → length (frames_bytes fs []) ≤ 63 * length fs
length-frames_bytes [] off h = omega arith
length-frames_bytes (f ∷ fs) off (v, at, h) =
    let rest = frames_bytes fs [] in
    omega (
      arith,
      length-append (put_uvarint f.off)
          (put_uvarint f.len ++ (put_uvarint f.zlen ++ (f.codec ∷ (f.b3 ++ rest)))),
      length-append (put_uvarint f.len) (put_uvarint f.zlen ++ (f.codec ∷ (f.b3 ++ rest))),
      length-append (put_uvarint f.zlen) (f.codec ∷ (f.b3 ++ rest)),
      length-append f.b3 rest,
      length-put_uvarint f.off,
      length-put_uvarint f.len,
      length-put_uvarint f.zlen,
      v.b3_size,
      length-frames_bytes fs (off + f.len) h,
    )

pub length-put_record : (h : Header) → IsHeader h → length (put_record h) < 2 ^ 60
length-put_record h v =
    let fs = frames_bytes h.frames [] in
    omega (
      arith,
      ap length (put_record-eq h),
      length-append h.source (
          h.target
          ++ (put_uvarint h.old_size
              ++ (put_uvarint h.new_size ++ (put_uvarint (length h.frames) ++ fs)))),
      length-append h.target (
          put_uvarint h.old_size
          ++ (put_uvarint h.new_size ++ (put_uvarint (length h.frames) ++ fs))),
      length-append (put_uvarint h.old_size)
          (put_uvarint h.new_size ++ (put_uvarint (length h.frames) ++ fs)),
      length-append (put_uvarint h.new_size) (put_uvarint (length h.frames) ++ fs),
      length-append (put_uvarint (length h.frames)) fs,
      length-put_uvarint h.old_size,
      length-put_uvarint h.new_size,
      length-put_uvarint (length h.frames),
      v.source_size,
      v.target_size,
      v.count_le,
      length-frames_bytes h.frames 0 v.contiguous,
    )

-- ParseHeader of what marshalHeader writes before any body gives the header back, with BodyOff where the body starts: for
-- hashes of 32 bytes, sizes within the limits of the format, and at most 2^20 frames, each of which starts where the
-- one before it ends.
pub parse_header-marshal_header :
    (h : Header) (body : List ℕ)
    → IsHeader h
    → parse_header (marshal_header h body)
      ≡ ok (record h { body_off = length (marshal_header h body) - length body })
unfolding parse_header marshal_header Put.raw bytes_eq
parse_header-marshal_header h body v =
    rw (bytes-put (put_record h) body (omega (arith, length-put_record h v)))
      (read_record-put_record h _ v)
