-- ===== src/Publish/Safe/Reads.antt =====
-- The parts of a publisher that put nothing into the store.
use go_binsync.Prelude.{
  ℕ, ◌+◌, replicate, ltb, ◌≡◌, inl, inr, Bool-cases, List, [], ◌∷◌, Option, none, some, Result, ok,
  err, panic, stuck, length, take,
}
use go_binsync.Varint.{is_neg}
use go_binsync.Release.Hash.{Hash, bytes_eq}
use go_binsync.Release.Hash.RoundTrip.{bytes_eq_iff}
use go_binsync.Release.Pointer.{Blob, Pointer}
use go_binsync.Release.Pointer.{Frame}
use go_binsync.Release.Blob.{BlobError, decode_frame, plain_size, check}
use go_binsync.Publish.Program.{Prog, Answer, pure, fail, found, missing, broken, crashed}
use go_binsync.Publish.Fetch.{
  cached, paste, pasted, answered, fetch_frames, hashed, checked, fetch_blob,
}
use go_binsync.Publish.Store.{Store, Setting}
use go_binsync.Publish.Safe.{Safe, Safe-bind, Safe-if, Any}
use go_binsync.Publish.{kept, or_fetched, old_bytes}

module _ (w : Setting) where
  -- The bytes of a release, or none.
  abbrev pub Verified : Hash → Option (List ℕ) → Store → Type 0
  Verified h none s = Unit
  Verified h (some b) s = w.site.calls.hash_of b ≡ h

  pub cached-Safe : (h : Hash) (s : Store) → Safe w (Verified h) s (cached w.site h)
  unfolding cached
  cached-Safe h s t st right none = tt
  cached-Safe h s t st right (some b) =
      Safe-if w (Verified h) t (bytes_eq (w.site.calls.hash_of b) h) (pure (some b)) (pure none)
        (λ e. (bytes_eq_iff (w.site.calls.hash_of b) h).0 e) (λ _. tt)

  answered-Safe :
      (f : Frame) (out : List ℕ) (next : List ℕ → Prog (Option (List ℕ))) (t : Store)
      → ((o : List ℕ) → Safe w (Any w) t (next o))
      → (a : Answer) → Safe w (Any w) t (answered w.site f out next a)
  answered-Safe f out next t more missing = tt
  answered-Safe f out next t more broken = tt
  answered-Safe f out next t more (found body tag) =
      pasted_as (decode_frame w.site.calls.codecs w.site.calls.hash_of f (take (f.zlen + 1) body))
    where
      pasted_as : (r : Result BlobError (List ℕ)) → Safe w (Any w) t (pasted f out r next)
      pasted_as (ok plain) =
          Safe-if w (Any w) t (ltb (length out) f.off) (fail crashed) (next (paste out f.off plain))
            (λ _. tt) (λ _. more (paste out f.off plain))
      pasted_as (err e) = tt
      pasted_as panic = tt
      pasted_as stuck = tt

  fetch_frames-Safe :
      (key : List ℕ) (fs : List Frame) (out : List ℕ) (s : Store)
      → Safe w (Any w) s (fetch_frames w.site key fs out)
  unfolding fetch_frames
  fetch_frames-Safe key [] out s = tt
  fetch_frames-Safe key (f ∷ rest) out s = λ t st right a ans.
      answered-Safe f out (fetch_frames w.site key rest) t (λ o. fetch_frames-Safe key rest o t) a

  hashed-Verified : (h : Hash) (b : Option (List ℕ)) (s : Store) → Verified h (hashed w.site h b) s
  unfolding hashed
  hashed-Verified h none s = tt
  hashed-Verified h (some b) s = elim (Bool-cases (bytes_eq (w.site.calls.hash_of b) h)) [
    | inl same ↦ rw same ((bytes_eq_iff (w.site.calls.hash_of b) h).0 same)
    | inr differs ↦ rw differs tt
  ]

  fetch_blob-Safe :
      (h : Hash) (b : Blob) (s : Store) → Safe w (Verified h) s (fetch_blob w.site h b)
  unfolding fetch_blob
  fetch_blob-Safe h b s = checked_as (check b)
    where
      checked_as : (r : Result BlobError (Unit {0})) → Safe w (Verified h) s (checked w.site b h r)
      checked_as (ok x) =
          Safe-if w (Verified h) s (is_neg (plain_size b)) (fail crashed) _ (λ _. tt)
            (λ _.
              Safe-bind w (Any w) (Verified h) s
                (fetch_frames w.site b.key b.frames (replicate (plain_size b) 0)) _
                (fetch_frames-Safe b.key b.frames _ s) (λ out t st _. hashed-Verified h out t))
      checked_as (err e) = tt
      checked_as panic = tt
      checked_as stuck = tt

  pub old_bytes-Safe :
      (prev : Pointer) (s : Store) → Safe w (Verified prev.head.hash) s (old_bytes w.site prev)
  unfolding old_bytes
  old_bytes-Safe prev s =
      Safe-bind w (Verified prev.head.hash) (Verified prev.head.hash) s
        (cached w.site prev.head.hash) _ (cached-Safe prev.head.hash s)
        (λ b t st v. fetched prev.head.blob b t v)
    where
      keep :
          (b : Option (List ℕ)) (t : Store)
          → Verified prev.head.hash b t
          → Safe w (Verified prev.head.hash) t (kept prev.head.hash b)
      keep none t v = tt
      keep (some b) t v = λ u tu right. v

      fetched :
          (blob : Option Blob) (b : Option (List ℕ)) (t : Store)
          → Verified prev.head.hash b t
          → Safe w (Verified prev.head.hash) t (or_fetched w.site prev.head blob b)
      fetched blob (some b) t v = v
      fetched none none t v = tt
      fetched (some blob) none t v =
          Safe-bind w (Verified prev.head.hash) (Verified prev.head.hash) t
            (fetch_blob w.site prev.head.hash blob) _ (fetch_blob-Safe prev.head.hash blob t)
            (λ got u tu x. keep got u x)
