-- ===== src/Delta/Codec.antt =====
-- delta/delta.go: Encode and Apply. BLAKE3 is the parameter `hash_of`, the compressors are
-- parameters, and so is the Go-aware transform, of which nothing is supposed. Stats, which Encode only
-- fills in, are left out.
pub mod Verified
pub mod RoundTrip
use go_binsync.Prelude.{
  ℕ, zero, suc, Bool, true, false, ◌&&◌, not, List, Option, none, some, Result, ok, err, panic,
  stuck, ◌>>=◌, length, ltb, leb, ◌==◌, if◌then◌else◌,
}
use go_binsync.Int64.{lt64, le64}
use go_binsync.Cz.{Codecs}
use go_binsync.Release.Hash.{Hash, bytes_eq}
use go_binsync.Delta.Errors.{
  Error, unsupported, old_size_wrong, old_hash_wrong, unsupported_transform, new_size_wrong,
  new_hash_wrong,
}
use go_binsync.Delta.Container.{Header, marshal_header, parse_header}
use go_binsync.Delta.Container.Body.{frame_body, read_body}
use go_binsync.Delta.Plain.Encode.{encode_plain}
use go_binsync.Delta.Plain.Patch.{plain_patch}

abbrev pub transform_plain : ℕ
transform_plain = 0

abbrev pub transform_go_amd64 : ℕ
transform_go_amd64 = 1

abbrev pub max_transform : ℕ
max_transform = transform_go_amd64

-- `max_transform` is an int, as a bit pattern.
pub record Options : Type 0 where
  pub max_transform : ℕ
  pub plain_only : Bool

unfoldable pub transform_cap : Options → ℕ
transform_cap o =
    if le64 o.max_transform 0
    then max_transform
    else if lt64 o.max_transform max_transform
    then o.max_transform
    else max_transform

-- What the two functions call: the libraries, and the Go-aware transform. A nil body is `none`.
pub record Calls : Type 0 where
  pub codecs : Codecs
  pub hash_of : List ℕ → Hash
  pub encode_go : List ℕ → List ℕ → Options → Result Error (Option (List ℕ))
  pub apply_go : List ℕ → List ℕ → Header → Result Error (List ℕ)

abbrev pub is_unsupported : Error → Bool
is_unsupported unsupported = true
is_unsupported _ = false

-- `if body == nil`: the plain codec, and which transform made the body.
abbrev pub or_plain : List ℕ → List ℕ → Result Error (Option (List ℕ)) → Result Error (ℕ × List ℕ)
or_plain old new (ok (some body)) = ok (transform_go_amd64, body)
or_plain old new (ok none) = (do body ← encode_plain old new; ok (transform_plain, body))
or_plain old new (err e) =
    if is_unsupported e then (do body ← encode_plain old new; ok (transform_plain, body)) else err e
or_plain old new panic = panic
or_plain old new stuck = stuck

unfoldable pub make_body : Calls → List ℕ → List ℕ → Options → Result Error (ℕ × List ℕ)
unfolding transform_cap
make_body k old new o =
    if not o.plain_only && leb transform_go_amd64 (transform_cap o)
    then or_plain old new (k.encode_go old new o)
    else or_plain old new (ok none)

unfoldable pub header_of : Calls → List ℕ → List ℕ → ℕ → List ℕ → Header
header_of k old new transform body = record {
  transform = transform;
  flags = 0;
  source = k.hash_of old;
  target = k.hash_of new;
  old_size = length old;
  new_size = length new;
  frames = (frame_body k.codecs k.hash_of body).0;
  body_off = 0;
}

unfoldable pub encode : Calls → List ℕ → List ℕ → Options → Result Error (List ℕ)
unfolding make_body header_of
encode k old new o = do
  (transform, body) ← make_body k old new o
  ok (marshal_header (header_of k old new transform body) (frame_body k.codecs k.hash_of body).1)

unfoldable pub apply_plain : List ℕ → List ℕ → Header → Result Error (List ℕ)
apply_plain old body h = plain_patch old body h.new_size

-- `switch h.Transform`
unfoldable pub apply_body : Calls → List ℕ → List ℕ → Header → Result Error (List ℕ)
unfolding apply_plain
apply_body k old body h =
    if h.transform == transform_plain
    then apply_plain old body h
    else if h.transform == transform_go_amd64
    then k.apply_go old body h
    else err unsupported_transform

-- The checks in front of the Write.
unfoldable pub verify : Calls → Header → List ℕ → Result Error (List ℕ)
verify k h out =
    if not (length out == h.new_size)
    then err new_size_wrong
    else if not (bytes_eq (k.hash_of out) h.target)
    then err new_hash_wrong
    else ok out

unfoldable pub apply_header : Calls → List ℕ → List ℕ → Header → Result Error (List ℕ)
unfolding apply_body verify
apply_header k old patch h =
    if not (length old == h.old_size)
    then err old_size_wrong
    else if not (bytes_eq (k.hash_of old) h.source)
    then err old_hash_wrong
    else (do
      body ← read_body k.codecs k.hash_of h patch
      out ← apply_body k old body h
      verify k h out)

-- What Apply writes to w, whose error it returns as it is.
unfoldable pub apply : Calls → List ℕ → List ℕ → Result Error (List ℕ)
unfolding apply_header
apply k old patch = do h ← parse_header patch; apply_header k old patch h
