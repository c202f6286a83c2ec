-- ===== src/Publish/Right.antt =====
-- What a right store is, and what its publishers may suppose.
pub mod Writes
use go_binsync.Prelude.{
  ℕ, ◌-◌, ◌^◌, ◌<◌, ◌≡◌, ◌≢◌, refl, sym, ap, ◌∙◌, ◌⊎◌, inl, inr, Bool-cases, true, false, List, [],
  ◌∷◌, some, Result, ok, length, take, All, All_mono, arith,
}
use mathlib.Core.Path.{subst}
use go_binsync.Int64.{lt64}
use go_binsync.Release.Hash.{Hash, bytes_eq, is_zero}
use go_binsync.Release.Hash.RoundTrip.{bytes_eq_iff}
use go_binsync.Release.Pointer.{
  Blob, Head, Edge, Pointer, frame_size, max_chain, parse_pointer, patch_key, blob_key,
}
use go_binsync.Release.Blob.{encode_blob}
use go_binsync.Delta.Errors.{Error}
use go_binsync.Delta.Codec.{encode}
use go_binsync.Publish.{options, pointer_key}
use go_binsync.Publish.Store.{Object, Store, write, IsVersion, Setting}

-- What is documented of the hash and of encoding/json, and supposed of the releases: the hash tells
-- them from all other contents, and the first digits of it, in the keys of patches, from each other.
pub record IsSetting (w : Setting) : Type 0 where
  pub unique : (h : Hash) (b : List ℕ) → w.Release h → w.site.calls.hash_of b ≡ h → b ≡ w.content h
  pub not_zero : (h : Hash) → w.Release h → is_zero h ≡ false
  pub small : (h : Hash) → w.Release h → length (w.content h) < 2 ^ 62
  pub patches_apart :
      (a b c d : Hash)
      → w.Release a
      → w.Release b
      → w.Release c
      → w.Release d
      → patch_key a b ≡ patch_key c d
      → (a ≡ c) × (b ≡ d)
  pub blobs_apart : (a b : Hash) → w.Release a → w.Release b → blob_key a ≡ blob_key b → a ≡ b
  pub json_int : (b : List ℕ) (p : Pointer) → w.site.unmarshal b ≡ some p → p.seq < 2 ^ 64
  pub json_back :
      (p : Pointer)
      → p.seq < 2 ^ 64
      → w.site.unmarshal (w.site.marshal p) ≡ some (record p { etag = [] })

-- The next pointer: a higher sequence number, unless there is none, and a chain that starts with an
-- edge from the last head and goes on with the last chain, or is empty.
pub record Follows (p q : Pointer) : Type 0 where
  pub later : (p.seq ≡ 2 ^ 63 - 1) ⊎ (lt64 p.seq q.seq ≡ true)
  pub chained :
      (q.chain ≡ [])
      ⊎ ((e : Edge) × (e.source ≡ p.head.hash)
          × (e.target ≡ q.head.hash)
          × (q.chain ≡ take max_chain (e ∷ p.chain)))

module _ (w : Setting) where
  abbrev pub patch_of : Hash → Hash → Result Error (List ℕ)
  patch_of a b = encode w.site.calls (w.content a) (w.content b) options

  abbrev pub blob_of : Hash → List ℕ × Blob
  blob_of h = encode_blob w.site.calls.codecs w.site.calls.hash_of h (w.content h) frame_size

  -- The edge names two releases and the patch between them, which the store has.
  pub record IsGood (s : Store) (e : Edge) : Type 0 where
    pub from : w.Release e.source
    pub to : w.Release e.target
    pub key : e.key ≡ patch_key e.source e.target
    pub patch : List ℕ
    pub made : patch_of e.source e.target ≡ ok patch
    pub size : e.size ≡ length patch
    pub digest : e.b3 ≡ w.site.calls.hash_of patch
    pub at_key : Object
    pub stored : s e.key ≡ some at_key
    pub holds : at_key.body ≡ patch

  pub record IsHead (h : Head) : Type 0 where
    pub release : w.Release h.hash
    pub size : h.size ≡ length (w.content h.hash)
    pub blob : h.blob ≡ some (blob_of h.hash).1

  pub record IsPointer (s : Store) (o : Object) : Type 0 where
    pub version : IsVersion w.version_of o
    pub p : Pointer
    pub parsed : parse_pointer w.site.unmarshal o.body ≡ ok p
    pub head : IsHead p.head
    pub chain : All (IsGood s) p.chain

  -- What every state of the store is.
  pub record IsRight (s : Store) : Type 0 where
    pub pointer : (o : Object) → s pointer_key ≡ some o → IsPointer s o
    pub patches :
        (a b : Hash) (o : Object)
        → w.Release a
        → w.Release b
        → s (patch_key a b) ≡ some o
        → patch_of a b ≡ ok o.body
    pub blobs :
        (h : Hash) (o : Object) → w.Release h → s (blob_key h) ≡ some o → o.body ≡ (blob_of h).0

  -- No object but the pointer goes away or changes.
  pub record Keeps (s t : Store) : Type 0 where
    pub keeps :
        (key : List ℕ) (o : Object)
        → key ≢ pointer_key
        → s key ≡ some o
        → (o' : Object) × (t key ≡ some o') × (o'.body ≡ o.body)

  unfoldable pub Moves : Store → Store → Type 0
  Moves s t =
      (o : Object) (p : Pointer)
      → s pointer_key ≡ some o
      → parse_pointer w.site.unmarshal o.body ≡ ok p
      → (o' : Object) × (q : Pointer) × (t pointer_key ≡ some o')
        × (parse_pointer w.site.unmarshal o'.body ≡ ok q)
        × ((o' ≡ o) ⊎ Follows p q)
