-- ===== src/Publish/Safe/Known.antt =====
-- What a publisher knows: a pointer that it has read, its own blob, and the edge that it has made.
use go_binsync.Prelude.{ℕ, ◌≡◌, ◌≢◌, refl, ap, List, [], Option, none, some, ok, All, All_mono}
use go_binsync.Release.Hash.{Hash}
use go_binsync.Release.Pointer.{Edge, Pointer, frame_size, parse_pointer}
use go_binsync.Release.Blob.{encode_blob}
use go_binsync.Publish.Program.{Answer, found, missing, broken}
use go_binsync.Publish.{Publisher, pointer_key, new_publisher, pointer_answered, read_pointer}
use go_binsync.Publish.Store.{Store, IsAnswer, Setting}
use go_binsync.Publish.Right.{IsSetting, blob_of, IsGood, IsHead, IsRight, Keeps}
use go_binsync.Publish.Right.Writes.{Keeps-IsGood}
use go_binsync.Publish.Safe.{Safe}

abbrev pub source_of : Option Pointer → Hash
source_of none = []
source_of (some q) = q.head.hash

module _ (w : Setting) where
  -- What a publisher knows of a pointer that it has read.
  pub record WasRead (s : Store) (q : Pointer) : Type 0 where
    pub body : List ℕ
    pub versioned : w.version_of q.etag ≡ body
    pub tagged : q.etag ≢ []
    pub p : Pointer
    pub parsed : parse_pointer w.site.unmarshal body ≡ ok p
    pub same : q ≡ record p { etag = q.etag }
    pub head : IsHead w p.head
    pub chain : All (IsGood w s) p.chain

  abbrev pub Read : Option Pointer → Store → Type 0
  Read none s = Unit
  Read (some q) s = WasRead s q

  pointer_answered-Safe :
      (t : Store)
      → IsRight w t
      → (a : Answer) → IsAnswer t pointer_key none a
      → Safe w Read t (pointer_answered w.site a)
  pointer_answered-Safe t right missing ans = tt
  pointer_answered-Safe t right broken ans = tt
  pointer_answered-Safe t right (found body tag) (o, at_pointer, is_body, is_tag) =
      let x = right.pointer o at_pointer in
      rw (is_body, is_tag, x.parsed)
        (record {
          body = o.body;
          versioned = x.version.body;
          tagged = x.version.tagged;
          p = x.p;
          parsed = x.parsed;
          same = refl;
          head = x.head;
          chain = x.chain;
        })

  pub read_pointer-Safe : (s : Store) → Safe w Read s (read_pointer w.site)
  unfolding read_pointer
  read_pointer-Safe s t st right a ans = pointer_answered-Safe t right a ans

  pub Read-Keeps : (prev : Option Pointer) (s t : Store) → Keeps w s t → Read prev s → Read prev t
  Read-Keeps none s t k r = tt
  Read-Keeps (some q) s t k r = record {
    body = r.body;
    versioned = r.versioned;
    tagged = r.tagged;
    p = r.p;
    parsed = r.parsed;
    same = r.same;
    head = r.head;
    chain = All_mono (Keeps-IsGood w s t k) r.p.chain r.chain;
  }

  -- The publisher of a release, with the blob of it.
  pub record IsPublisher (p : Publisher) : Type 0 where
    pub release : w.Release p.hash
    pub bin : p.bin ≡ w.content p.hash
    pub digest : w.site.calls.hash_of p.bin ≡ p.hash
    pub obj : p.blob_obj ≡ (blob_of w p.hash).0
    pub blob : p.blob ≡ (blob_of w p.hash).1

  pub new_publisher-IsPublisher :
      (right_w : IsSetting w) (bin text : List ℕ)
      → w.Release (w.site.calls.hash_of bin)
      → IsPublisher (new_publisher w.site bin text)
  unfolding new_publisher
  new_publisher-IsPublisher right_w bin text is_release =
      let h = w.site.calls.hash_of bin in
      let e = right_w.unique h bin is_release refl in
      let again =
        λ (b : List ℕ). encode_blob w.site.calls.codecs w.site.calls.hash_of h b frame_size in
      record {
        release = is_release;
        bin = e;
        digest = refl;
        obj = ap (λ (b : List ℕ). (again b).0) e;
        blob = ap (λ (b : List ℕ). (again b).1) e;
      }

  -- The edge that a new pointer may start its chain with.
  abbrev pub EdgeFits : Publisher → Hash → Option Edge → Store → Type 0
  EdgeFits p source none s = Unit
  EdgeFits p source (some e) s = IsGood w s e × (e.source ≡ source) × (e.target ≡ p.hash)

  pub fits-Keeps :
      (p : Publisher) (source : Hash) (edge : Option Edge) (s t : Store)
      → Keeps w s t
      → EdgeFits p source edge s
      → EdgeFits p source edge t
  fits-Keeps p source none s t k f = tt
  fits-Keeps p source (some e) s t k (good, from, to) = (Keeps-IsGood w s t k e good, from, to)
