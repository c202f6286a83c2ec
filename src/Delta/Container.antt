-- ===== src/Delta/Container.antt =====
-- delta/container.go: the header of a patch. A hash is the list of its bytes; the numbers of a
-- header are int64s that are not below 0.
pub mod RoundTrip
pub mod Body
use go_binsync.Prelude.{
  ℕ, zero, suc, ◌+◌, ◌-◌, ◌*◌, ◌^◌, Bool, true, false, ◌||◌, not, List, [], ◌∷◌, ◌++◌, Option, none,
  some, Result, ok, err, length, take, drop, replicate, ltb, ◌==◌, if◌then◌else◌,
}
use go_binsync.Int64.{add64}
use go_binsync.Release.Hash.{Hash, bytes_eq, zero_hash}
use go_binsync.Delta.Errors.{Error, bad_magic, frame_gap}
use go_binsync.Delta.Buf
use go_binsync.Delta.Buf.{Rbuf, reading}
use go_binsync.Delta.Buf.Put
use go_binsync.Delta.Buf.Put.{Wbuf}

-- "BSZ1"
abbrev pub magic : List ℕ
magic = b'B' ∷ b'S' ∷ b'Z' ∷ b'1' ∷ []

abbrev pub frame_size : ℕ
frame_size = 8 * 2 ^ 20

abbrev pub max_patch_size : ℕ
max_patch_size = 2 ^ 34

pub record Frame : Type 0 where
  pub off : ℕ
  pub len : ℕ
  pub zlen : ℕ
  pub codec : ℕ
  pub b3 : Hash

pub record Header : Type 0 where
  pub transform : ℕ
  pub flags : ℕ
  pub source : Hash
  pub target : Hash
  pub old_size : ℕ
  pub new_size : ℕ
  pub frames : List Frame
  pub body_off : ℕ

unfoldable pub put_frame : Wbuf → Frame → Wbuf
unfolding Put.u Put.raw
put_frame w f = Put.raw (Put.raw (Put.u (Put.u (Put.u w f.off) f.len) f.zlen) (f.codec ∷ [])) f.b3

-- `for _, fr := range h.Frames`
unfoldable pub put_frames : Wbuf → List Frame → Wbuf
unfolding put_frame
put_frames w [] = w
put_frames w (f ∷ rest) = put_frames (put_frame w f) rest

-- The header record.
unfoldable pub put_record : Header → Wbuf
unfolding put_frames Put.u Put.raw
put_record h =
    put_frames
      (Put.u (Put.u (Put.u (Put.raw (Put.raw [] h.source) h.target) h.old_size) h.new_size)
        (length h.frames))
      h.frames

unfoldable pub marshal_header : Header → List ℕ → List ℕ
unfolding put_record Put.bytes Put.raw
marshal_header h body =
    Put.bytes (Put.raw (Put.raw [] magic) (h.transform ∷ h.flags ∷ [])) (put_record h) ++ body

-- copy(dst[:], b) of the 32 bytes, or of none after a failure.
abbrev pub filled : List ℕ → Hash
filled [] = zero_hash
filled (x ∷ b) = x ∷ b

-- The fields of one frame.
unfoldable pub read_frame : Rbuf → Frame × Rbuf
read_frame f =
    let (off, f1) = Buf.un f max_patch_size in
    let (len, f2) = Buf.un f1 frame_size in
    let (zlen, f3) = Buf.un f2 max_patch_size in
    let (codec, f4) = Buf.byte f3 in
    let (b3, f5) = Buf.take_bytes f4 32 in
    (record { off = off; len = len; zlen = zlen; codec = codec; b3 = filled b3 }, f5)

abbrev pub has_failed : Option Error → Bool
has_failed none = false
has_failed (some e) = true

-- `for i := uint64(0); i < n && f.err == nil; i++`, from the offset `off` on.
unfoldable pub read_frames : ℕ → Rbuf → ℕ → List Frame → List Frame × Rbuf
read_frames zero f off frames = (frames, f)
read_frames (suc n) f off frames =
    let (fr, f1) = read_frame f in
    let more = read_frames n f1 (add64 off fr.len) (frames ++ (fr ∷ [])) in
    if has_failed f.error
    then (frames, f)
    else if not (fr.off == off)
    then (frames, Buf.fail f1 frame_gap)
    else more

abbrev pub unless_failed : Option Error → Header → Result Error Header
unless_failed none h = ok h
unless_failed (some e) h = err e

-- Behind the length of the record: `rec` is the record.
unfoldable pub read_record : ℕ → ℕ → ℕ → List ℕ → Result Error Header
read_record transform flags body_off rec =
    let (source, f1) = Buf.take_bytes (reading rec) 32 in
    let (target, f2) = Buf.take_bytes f1 32 in
    let (old_size, f3) = Buf.un f2 max_patch_size in
    let (new_size, f4) = Buf.un f3 max_patch_size in
    let (n, f5) = Buf.un f4 (2 ^ 20) in
    let (frames, f6) = read_frames n f5 0 [] in
    unless_failed (Buf.done f6) (record {
      transform = transform;
      flags = flags;
      source = filled source;
      target = filled target;
      old_size = old_size;
      new_size = new_size;
      frames = frames;
      body_off = body_off;
    })

-- `len(b) < 6 || string(b[:4]) != Magic`, and the two bytes behind.
abbrev pub prologue : List ℕ → Option (ℕ × ℕ × List ℕ)
prologue (a ∷ b ∷ c ∷ d ∷ transform ∷ flags ∷ rest) =
    if bytes_eq (a ∷ b ∷ c ∷ d ∷ []) magic then some (transform, flags, rest) else none
prologue _ = none

abbrev pub with_record : List ℕ → ℕ → ℕ → List ℕ × Rbuf → Result Error Header
with_record all transform flags (rec, r) = elim r.error [
  | none ↦ read_record transform flags (length all - length r.b) rec
  | some e ↦ err e
]

abbrev pub after_prologue : List ℕ → Option (ℕ × ℕ × List ℕ) → Result Error Header
after_prologue all none = err bad_magic
after_prologue all (some (transform, flags, rest)) =
    with_record all transform flags (Buf.bytes (reading rest))

unfoldable pub parse_header : List ℕ → Result Error Header
parse_header b = after_prologue b (prologue b)

unfoldable pub add_lens : ℕ → List Frame → ℕ
unfolding add64
add_lens n [] = n
add_lens n (f ∷ rest) = add_lens (add64 n f.len) rest

unfoldable pub add_zlens : ℕ → List Frame → ℕ
unfolding add64
add_zlens n [] = n
add_zlens n (f ∷ rest) = add_zlens (add64 n f.zlen) rest

unfoldable pub body_size : Header → ℕ
unfolding add_lens
body_size h = add_lens 0 h.frames

unfoldable pub size : Header → ℕ
unfolding add_zlens
size h = add_zlens h.body_off h.frames
