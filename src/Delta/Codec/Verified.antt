-- ===== src/Delta/Codec/Verified.antt =====
-- Apply, on any patch: what it writes.
use go_binsync.Prelude.{
  ℕ, ◌+◌, ◌-◌, ◌^◌, ◌≤◌, ◌≢◌, Option, none, some, [], ◌∷◌, ◌++◌, Outcome, Outcome-bind,
  Outcome-same, Outcome-any, ◌≡◌, refl, ◌⊎◌, inl, inr, List, Result, not, Bool-cases, if_both,
  ==_iff, ok, err, panic, stuck, length, ◌==◌, arith,
}
use go_binsync.Release.Hash.{Hash, bytes_eq}
use go_binsync.Release.Hash.RoundTrip.{bytes_eq_iff}
use go_binsync.Delta.Errors.{Error}
use go_binsync.Cz.{Codecs, decompress}
use go_binsync.Delta.Buf
use go_binsync.Delta.Buf.{Rbuf, reading}
use go_binsync.Delta.Buf.Laws.{un-le}
use go_binsync.Delta.Container.{
  Frame, Header, max_patch_size, filled, read_frames, unless_failed, read_record, prologue,
  after_prologue, parse_header, size,
}
use go_binsync.Delta.Container.Body.{open_frame, next, read_loop, read_body}
use go_binsync.Delta.Plain.Patch.{plain_patch}
use go_binsync.Delta.Plain.Patch.Bounds.{plain_patch-Outcome}
use go_binsync.Delta.Codec.{
  Calls, transform_plain, transform_go_amd64, apply_plain, apply_body, verify, apply_header, apply,
}

-- What is written has the size and the hash that the patch promises, and the old file has those that it
-- expects.
pub record IsPromised (k : Calls) (old patch out : List ℕ) : Type 0 where
  pub header : Header
  pub parsed : parse_header patch ≡ ok header
  pub old_size : length old ≡ header.old_size
  pub old_hash : k.hash_of old ≡ header.source
  pub new_size : length out ≡ header.new_size
  pub new_hash : k.hash_of out ≡ header.target
  pub known : (header.transform ≡ transform_plain) ⊎ (header.transform ≡ transform_go_amd64)

-- The sizes that ParseHeader lets through.
InRange : Header → Type 0
InRange h = (h.old_size ≤ max_patch_size) × (h.new_size ≤ max_patch_size)

read_record-Outcome :
    (transform flags body_off : ℕ) (rec : List ℕ)
    → Outcome InRange (read_record transform flags body_off rec)
unfolding read_record InRange
read_record-Outcome transform flags body_off rec =
    let (source, f1) = Buf.take_bytes (reading rec) 32 in
    let (target, f2) = Buf.take_bytes f1 32 in
    let (old_size, f3) = Buf.un f2 max_patch_size in
    let (new_size, f4) = Buf.un f3 max_patch_size in
    let (n, f5) = Buf.un f4 (2 ^ 20) in
    let (frames, f6) = read_frames n f5 0 [] in
    unless (Buf.done f6)
      (record {
        transform = transform;
        flags = flags;
        source = filled source;
        target = filled target;
        old_size = old_size;
        new_size = new_size;
        frames = frames;
        body_off = body_off;
      })
      (un-le f2 max_patch_size, un-le f3 max_patch_size)
  where
    unless : (e : Option Error) (h : Header) → InRange h → Outcome InRange (unless_failed e h)
    unless none h r = r
    unless (some e) h r = tt

parse_header-Outcome : (b : List ℕ) → Outcome InRange (parse_header b)
unfolding parse_header
parse_header-Outcome b = from_prologue (prologue b)
  where
    by_error :
        (e : Option Error) (m : Result Error Header)
        → Outcome InRange m
        → Outcome InRange (elim e [ none ↦ m | some x ↦ err x ])
    by_error none m h = h
    by_error (some x) m h = tt

    from_prologue : (p : Option (ℕ × ℕ × List ℕ)) → Outcome InRange (after_prologue b p)
    from_prologue none = tt
    from_prologue (some (transform, flags, rest)) =
        let (rec, r) = Buf.bytes (reading rest) in
        by_error r.error _ (read_record-Outcome transform flags (length b - length r.b) rec)

open_frame-ends :
    (c : Codecs) (hash_of : List ℕ → Hash) (patch : List ℕ) (off : ℕ) (f : Frame)
    → open_frame c hash_of patch off f ≢ stuck
unfolding open_frame decompress
open_frame-ends c hash_of patch off f = ground arith

next-Outcome :
    (r : Result Error (List ℕ)) (k : List ℕ → Result Error (List ℕ))
    → r ≢ stuck
    → ((a : List ℕ) → Outcome (λ _. Unit) (k a))
    → Outcome (λ _. Unit) (next r k)
next-Outcome (ok a) k h f = f a
next-Outcome (err e) k h f = tt
next-Outcome panic k h f = tt
next-Outcome stuck k h f = h refl

read_loop-Outcome :
    (c : Codecs) (hash_of : List ℕ → Hash) (patch : List ℕ) (off : ℕ) (fs : List Frame)
    (body : List ℕ)
    → Outcome (λ _. Unit) (read_loop c hash_of patch off fs body)
unfolding read_loop
read_loop-Outcome c hash_of patch off [] body = tt
read_loop-Outcome c hash_of patch off (f ∷ fs) body =
    next-Outcome (open_frame c hash_of patch off f) _ (open_frame-ends c hash_of patch off f)
      (λ out. read_loop-Outcome c hash_of patch (off + f.zlen) fs (body ++ out))

module _ (k : Calls) (ends : (old body : List ℕ) (h : Header) → k.apply_go old body h ≢ stuck)
    (old patch : List ℕ) where
  read_body-Outcome : (h : Header) → Outcome (λ _. Unit) (read_body k.codecs k.hash_of h patch)
  unfolding read_body
  read_body-Outcome h =
      if_both (Outcome {E = Error} {A = List ℕ} (λ _. Unit)) (not (length patch == size h)) tt
        (read_loop-Outcome k.codecs k.hash_of patch h.body_off h.frames [])

  apply_body-Outcome :
      (h : Header) (body : List ℕ)
      → length old ≡ h.old_size
      → InRange h
      → Outcome
          (λ _. (h.transform ≡ transform_plain) ⊎ (h.transform ≡ transform_go_amd64))
          (apply_body k old body h)
  unfolding apply_body apply_plain InRange
  apply_body-Outcome h body same (old_le, new_le) =
      elim (Bool-cases (h.transform == transform_plain)) [
        | inl plain ↦ rw plain (
            Outcome-same _ (plain_patch old body h.new_size)
              (plain_patch-Outcome old body h.new_size (omega arith) (omega arith)) _
              (λ _ _ _. inl ((==_iff h.transform transform_plain).0 plain)))
        | inr other ↦ elim (Bool-cases (h.transform == transform_go_amd64)) [
          | inl go ↦
              rw (other, go)
                (Outcome-same _ (k.apply_go old body h) (Outcome-any _ (ends old body h)) _
                  (λ _ _ _. inr ((==_iff h.transform transform_go_amd64).0 go)))
          | inr unknown ↦ rw (other, unknown) tt
        ]
      ]

  verify-Outcome :
      (h : Header) (out : List ℕ)
      → Outcome (λ o. (length o ≡ h.new_size) × (k.hash_of o ≡ h.target)) (verify k h out)
  unfolding verify
  verify-Outcome h out = elim (Bool-cases (length out == h.new_size)) [
    | inr size ↦ rw size tt
    | inl size ↦ elim (Bool-cases (bytes_eq (k.hash_of out) h.target)) [
      | inr hash ↦ rw (size, hash) tt
      | inl hash ↦
          rw (size, hash)
            (
              (==_iff (length out) h.new_size).0 size,
              (bytes_eq_iff (k.hash_of out) h.target).0 hash,
            )
    ]
  ]

  apply_header-Outcome :
      (h : Header)
      → parse_header patch ≡ ok h
      → InRange h
      → Outcome (IsPromised k old patch) (apply_header k old patch h)
  unfolding apply_header
  apply_header-Outcome h parsed r = elim (Bool-cases (length old == h.old_size)) [
    | inr size ↦ rw size tt
    | inl size ↦ elim (Bool-cases (bytes_eq (k.hash_of old) h.source)) [
      | inr hash ↦ rw (size, hash) tt
      | inl hash ↦
          let same = (==_iff (length old) h.old_size).0 size in
          rw (size, hash)
            (Outcome-bind (λ _. Unit) (IsPromised k old patch)
              (read_body k.codecs k.hash_of h patch) _ (read_body-Outcome h)
              (λ body _.
                Outcome-bind _ (IsPromised k old patch) (apply_body k old body h) _
                  (apply_body-Outcome h body same r)
                  (λ out known.
                    Outcome-same _ (verify k h out) (verify-Outcome h out) (IsPromised k old patch)
                      (λ o (new_size, new_hash) _. record {
                        header = h;
                        parsed = parsed;
                        old_size = same;
                        old_hash = (bytes_eq_iff (k.hash_of old) h.source).0 hash;
                        new_size = new_size;
                        new_hash = new_hash;
                        known = known;
                      }))))
    ]
  ]

  -- On any patch, and whatever the Go-aware transform makes of it, where that ends: Apply ends, and
  -- what it writes has the size and the hash that the patch's header promises, made of an old file
  -- with the size and the hash that the header expects, by a transform that is known.
  pub apply-IsPromised : Outcome (IsPromised k old patch) (apply k old patch)
  unfolding apply
  apply-IsPromised =
      Outcome-bind (λ h. InRange h × (parse_header patch ≡ ok h)) (IsPromised k old patch)
        (parse_header patch) _
        (Outcome-same InRange (parse_header patch) (parse_header-Outcome patch) _ (λ h r e. (r, e)))
        (λ h (r, e). apply_header-Outcome h e r)
