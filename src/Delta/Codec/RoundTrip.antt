-- ===== src/Delta/Codec/RoundTrip.antt =====
-- Apply of what Encode makes.
use go_binsync.Prelude.{
  ℕ, ◌-◌, ◌≤◌, ◌≡◌, refl, ap, ◌∙◌, ◌⊎◌, inl, inr, true, false, if_both, List, [], ◌∷◌, ◌++◌, ok,
  err, ◌>>=◌, not, ◌&&◌, leb, ltb, length, ==_iff, length-append, arith,
}
use go_binsync.Cz.RoundTrip.{IsLossless}
use go_binsync.Release.Hash.RoundTrip.{bytes_eq_iff}
use go_binsync.Int64.{le64, lt64}
use go_binsync.Varint.{put_uvarint}
use go_binsync.Delta.Correct.RoundTrip.Bounds.{length-put_uvarint}
use go_binsync.Delta.Errors.{unsupported}
use go_binsync.Delta.Buf.Put
use go_binsync.Delta.Container.{Header, put_record, magic, max_patch_size, marshal_header}
use go_binsync.Delta.Container.RoundTrip.{IsHeader, length-put_record, parse_header-marshal_header}
use go_binsync.Delta.Container.Body.{frame_body, read_body}
use go_binsync.Delta.Container.Body.RoundTrip.{frame_body-AreFrames, read_body-frame_body}
use go_binsync.Delta.Plain.Runs.Steps.{AreBytes}
use go_binsync.Delta.Plain.Encode.{max_plain_size, plain_diff, encode_plain}
use go_binsync.Delta.Plain.Patch.{plain_patch}
use go_binsync.Delta.Plain.RoundTrip.{plain_diff-IsBody}
use go_binsync.Delta.Codec.{
  Options, Calls, transform_plain, transform_go_amd64, transform_cap, or_plain, make_body,
  header_of, encode, apply_plain, apply_body, verify, apply_header, apply,
}

-- What the documentation of the libraries says.
pub record AreRight (k : Calls) : Type 0 where
  pub lossless : IsLossless k.codecs
  pub digests : (b : List ℕ) → length (k.hash_of b) ≡ 32

module _ (k : Calls) (right : AreRight k) (old new body : List ℕ) (transform : ℕ)
    (old_small : length old ≤ max_patch_size) (new_small : length new ≤ max_patch_size)
    (body_small : length body ≤ max_patch_size) where
  abbrev sent : Header
  sent = header_of k old new transform body

  abbrev frames_bytes : List ℕ
  frames_bytes = (frame_body k.codecs k.hash_of body).1

  abbrev patch : List ℕ
  patch = marshal_header sent frames_bytes

  sent-IsHeader : IsHeader sent
  unfolding header_of
  sent-IsHeader =
      let (in_order, count) =
        frame_body-AreFrames k.codecs k.hash_of body right.lossless right.digests body_small in
      record {
        source_size = right.digests old;
        target_size = right.digests new;
        old_le = old_small;
        new_le = new_small;
        count_le = count;
        contiguous = in_order;
      }

  -- The header as ParseHeader reads it.
  abbrev received : Header
  received = record sent { body_off = length patch - length frames_bytes }

  opened : read_body k.codecs k.hash_of received patch ≡ ok body
  unfolding marshal_header Put.bytes Put.raw header_of
  opened =
      let rec = put_record sent in
      let start = magic ++ (transform ∷ 0 ∷ []) in
      let pre = (start ++ put_uvarint (length rec)) ++ rec in
      let size = length-append (start ++ put_uvarint (length rec)) rec in
      let size2 = length-append start (put_uvarint (length rec)) in
      let few = length-put_uvarint (length rec) in
      read_body-frame_body k.codecs k.hash_of received pre body right.lossless (omega arith)
        (omega (arith, size, size2, few, length-put_record sent sent-IsHeader))
        (omega (arith, length-append pre frames_bytes)) refl

  checked :
      apply_header k old patch received ≡ (apply_body k old body received >>= verify k received)
  unfolding apply_header header_of
  checked =
      rw
        (
          (==_iff (length old) (length old)).1 refl,
          (bytes_eq_iff (k.hash_of old) (k.hash_of old)).1 refl,
          opened,
        )
        refl

  -- Apply of the patch is Apply of the body.
  pub apply-patch : apply k old patch ≡ (apply_body k old body received >>= verify k received)
  unfolding apply apply_header
  apply-patch =
      ap (λ r. r >>= apply_header k old patch)
        (parse_header-marshal_header sent frames_bytes sent-IsHeader)
      ∙ checked

promised :
    (k : Calls) (old new b : List ℕ)
    → plain_patch old b (length new) ≡ ok new
    → (h : Header) → h.transform ≡ transform_plain
    → h.new_size ≡ length new
    → h.target ≡ k.hash_of new
    → (apply_body k old b h >>= verify k h) ≡ ok new
unfolding apply_body apply_plain verify
promised k old new b patched h plain size hash =
    rw
      (
        plain,
        size,
        hash,
        patched,
        (==_iff (length new) (length new)).1 refl,
        (bytes_eq_iff (k.hash_of new) (k.hash_of new)).1 refl,
      )
      refl

-- Encode takes the plain codec: it is asked to, or the Go-aware one declines.
abbrev pub IsPlain : Calls → List ℕ → List ℕ → Options → Type 0
IsPlain k old new o = (o.plain_only ≡ true) ⊎ (k.encode_go old new o ≡ err unsupported)

make_body-plain :
    (k : Calls) (old new b : List ℕ) (o : Options)
    → IsPlain k old new o
    → encode_plain old new ≡ ok b
    → make_body k old new o ≡ ok (transform_plain, b)
unfolding make_body
make_body-plain k old new b o (inl asked) e = rw (asked, e) refl
make_body-plain k old new b o (inr declined) e =
    rw (declined, e)
      (if_both (λ r. r ≡ ok (transform_plain, b))
        (not o.plain_only && leb transform_go_amd64 (transform_cap o)) refl refl)

encode_plain-diff :
    (old new : List ℕ) → length old ≤ max_plain_size → encode_plain old new ≡ plain_diff old new
unfolding encode_plain
encode_plain-diff old new h = rw (not_above h) refl
  where
    not_above : {n : ℕ} → n ≤ max_plain_size → ltb max_plain_size n ≡ false
    not_above {n} le = ground arith

-- Where Encode takes the plain codec, for libraries that do what they document and two files of bytes
-- of up to MaxPlainSize each: it makes a patch, of which Apply writes the new file.
pub apply-encode :
    (k : Calls) (old new : List ℕ) (o : Options)
    → AreRight k
    → IsPlain k old new o
    → AreBytes old
    → AreBytes new
    → length old ≤ max_plain_size
    → length new ≤ max_plain_size
    → (encode k old new o >>= apply k old) ≡ ok new
unfolding encode header_of
apply-encode k old new o right plain bo bn old_le new_le =
    let (b, made, is_body) = plain_diff-IsBody old new (omega arith) (omega arith) bo bn in
    let body_le : length b ≤ max_patch_size = omega (arith, is_body.short) in
    rw (make_body-plain k old new b o plain (encode_plain-diff old new old_le ∙ made)) (
      apply-patch k right old new b transform_plain (omega arith) (omega arith) body_le
      ∙ promised k old new b is_body.patched
          (received k right old new b transform_plain (omega arith) (omega arith) body_le) refl refl
          refl)

cap_lem : (o : Options) → leb transform_go_amd64 (transform_cap o) ≡ true
unfolding transform_cap le64 lt64
cap_lem o = ground arith

-- Whatever MaxTransform is, Encode without PlainOnly tries the Go-aware transform first.
pub make_body-go :
    (k : Calls) (old new : List ℕ) (o : Options)
    → o.plain_only ≡ false
    → make_body k old new o ≡ or_plain old new (k.encode_go old new o)
unfolding make_body
make_body-go k old new o e = rw (e, cap_lem o) refl
