-- ===== src/Publish/Safe/Puts.antt =====
-- That each call of a publisher leaves a right store right.
use go_binsync.Prelude.{
  ℕ, zero, suc, ◌-◌, ◌≡◌, ◌≢◌, refl, sym, ap, ◌∙◌, inl, inr, Bool-cases, List, Option, none, some,
  Result, ok, err, panic, stuck, length,
}
use mathlib.Core.Path.{subst}
use go_binsync.Release.Hash.{Hash, bytes_eq}
use go_binsync.Release.Hash.RoundTrip.{bytes_eq_iff}
use go_binsync.Release.Pointer.{Blob, Head, Edge, Pointer, frame_size, patch_key}
use go_binsync.Release.Blob.{encode_blob}
use go_binsync.Delta.Errors.{Error}
use go_binsync.Delta.Codec.{encode}
use go_binsync.Publish.Program.{
  Prog, pure, fail, Answer, found, missing, broken, PutAnswer, done, lost_race, put_broken,
  store_error, ◌>>=◌,
}
use go_binsync.Publish.Fetch.{exists, exists_answered}
use go_binsync.Publish.{
  Publisher, options, cas_attempts, new_publisher, put_answered, put_object, read_pointer,
  finish_with, own_or_cached, finish_head, finish_blob, old_bytes, edge_of, put_made, put_from,
  put_patch, next_pointer, put_pointer, is_published, upload, replaced, attempt, attempts, run,
}
use go_binsync.Publish.Store.{Store, write, Setting}
use go_binsync.Publish.Right.{IsSetting, patch_of, blob_of, IsGood, IsHead}
use go_binsync.Publish.Right.Writes.{
  Keeps-trans, IsFine, write_self, write_patch-IsFine, write_blob-IsFine, write_pointer-IsFine,
}
use go_binsync.Publish.Safe.{version, Safe, Safe-bind, Safe-if, Any}
use go_binsync.Publish.Safe.Reads.{Verified, cached-Safe, old_bytes-Safe}
use go_binsync.Publish.Safe.Known.{
  Read, Read-Keeps, read_pointer-Safe, IsPublisher, new_publisher-IsPublisher, source_of, EdgeFits,
  fits-Keeps,
}
use go_binsync.Publish.Safe.Pointers.{next_chain-IsGood, next_pointer-parsed, next_pointer-Moves}

module _ (w : Setting) (right_w : IsSetting w) where
  -- An object that is the blob of a release goes under the key of that blob.
  put_blob-Safe :
      (h : Hash) (key obj : List ℕ) (s : Store)
      → w.Release h
      → key ≡ (blob_of w h).1.key
      → obj ≡ (blob_of w h).0
      → Safe w (Any w) s (put_object key obj)
  unfolding put_object encode_blob
  put_blob-Safe h key obj s is_release is_key is_obj t st right = (
    λ tag allowed v. (
      subst (λ (k : List ℕ). IsFine w t (write t k (version w obj tag))) (sym is_key)
          (write_blob-IsFine w right_w t right h (version w obj tag) is_release is_obj),
      tt,
    ),
    λ a ne. refused a ne,
  )
    where
      refused : (a : PutAnswer) → a ≢ done → Safe w (Any w) t (put_answered a)
      refused done ne = absurd (ne refl)
      refused lost_race ne = tt
      refused put_broken ne = tt

  exists-Safe : (key : List ℕ) (s : Store) → Safe w (Any w) s (exists key)
  unfolding exists
  exists-Safe key s t st right a ans = answer a
    where
      answer : (a : Answer) → Safe w (Any w) t (exists_answered a)
      answer (found body etag) = tt
      answer missing = tt
      answer broken = tt

  finish_with-Safe :
      (h : Hash) (b : Blob) (content : Option (List ℕ)) (s : Store)
      → w.Release h
      → b ≡ (blob_of w h).1
      → Verified w h content s
      → Safe w (Any w) s (finish_with w.site h b content)
  unfolding finish_with
  finish_with-Safe h b none s is_release is_blob v = tt
  finish_with-Safe h b (some c) s is_release is_blob v =
      let again =
        λ (x : List ℕ). encode_blob w.site.calls.codecs w.site.calls.hash_of h x frame_size in
      let same = right_w.unique h c is_release v in
      Safe-if w (Any w) s _ (pure tt) (put_object b.key (again c).0) (λ _. tt)
        (λ _.
          put_blob-Safe h b.key (again c).0 s is_release (ap (λ (x : Blob). x.key) is_blob)
            (ap (λ (x : List ℕ). (again x).0) same))

  module _ (p : Publisher) (is_p : IsPublisher w p) where
    own_or_cached-Safe : (h : Hash) (s : Store) → Safe w (Verified w h) s (own_or_cached w.site p h)
    own_or_cached-Safe h s = elim (Bool-cases (bytes_eq h p.hash)) [
      | inl same ↦ rw same (is_p.digest ∙ sym ((bytes_eq_iff h p.hash).0 same))
      | inr differs ↦ rw differs (cached-Safe w h s)
    ]

    finish_head-Safe :
        (head : Head) (blob : Option Blob) (s : Store)
        → w.Release head.hash
        → blob ≡ some (blob_of w head.hash).1
        → Safe w (Any w) s (finish_head w.site p head blob)
    unfolding finish_head
    finish_head-Safe head none s is_release e = tt
    finish_head-Safe head (some b) s is_release e =
        Safe-bind w (Any w) (Any w) s (exists b.key) _ (exists-Safe b.key s) λ there t st _.
          Safe-if w (Any w) t there (pure tt) _ (λ _. tt)
            λ _.
              Safe-bind w (Verified w head.hash) (Any w) t (own_or_cached w.site p head.hash) _
                (own_or_cached-Safe head.hash t)
                λ content u tu v. finish_with-Safe head.hash b content u is_release (some_inj e) v
      where
        some_inj : {x y : Blob} → some x ≡ some y → x ≡ y
        some_inj h = cc

    finish_blob-Safe :
        (prev : Option Pointer) (s : Store)
        → Read w prev s
        → Safe w (Any w) s (finish_blob w.site p prev)
    unfolding finish_blob
    finish_blob-Safe none s r = tt
    finish_blob-Safe (some q) s r =
        let head : IsHead w q.head = subst (λ (x : Pointer). IsHead w x.head) (sym r.same) r.head in
        finish_head-Safe q.head q.head.blob s head.release head.blob

    edge_of-IsGood :
        (source : Hash) (patch tag : List ℕ) (s : Store)
        → w.Release source
        → patch_of w source p.hash ≡ ok patch
        → IsGood w
            (write s (patch_key source p.hash) (version w patch tag))
            (edge_of w.site p source patch)
    unfolding edge_of
    edge_of-IsGood source patch tag s is_source made = record {
      from = is_source;
      to = is_p.release;
      key = refl;
      patch = patch;
      made = made;
      size = refl;
      digest = refl;
      at_key = version w patch tag;
      stored = write_self s (patch_key source p.hash) (version w patch tag);
      holds = refl;
    }

    put_made-Safe :
        (source : Hash) (r : Result Error (List ℕ)) (s : Store)
        → w.Release source
        → patch_of w source p.hash ≡ r
        → Safe w (EdgeFits w p source) s (put_made w.site p source r)
    unfolding put_object edge_of
    put_made-Safe source (err e) s is_source made = tt
    put_made-Safe source panic s is_source made = tt
    put_made-Safe source stuck s is_source made = tt
    put_made-Safe source (ok patch) s is_source made =
        let e = edge_of w.site p source patch in
        Safe-if w (EdgeFits w p source) s _ (pure none)
          (put_object e.key patch >>= λ _. pure (some e)) (λ _. tt)
          λ _ t st right. (
            λ tag allowed v. (
              write_patch-IsFine w right_w t right source p.hash (version w patch tag) is_source
                  is_p.release made,
              (edge_of-IsGood source patch tag t is_source made, refl, refl),
            ),
            λ a ne. refused t a ne,
          )
      where
        refused :
            (t : Store) (a : PutAnswer)
            → a ≢ done
            → Safe w
                (EdgeFits w p source)
                t
                (put_answered a >>= λ _. pure (some (edge_of w.site p source patch)))
        refused t done ne = absurd (ne refl)
        refused t lost_race ne = tt
        refused t put_broken ne = tt

    put_patch-Safe :
        (prev : Option Pointer) (s : Store)
        → Read w prev s
        → Safe w (EdgeFits w p (source_of prev)) s (put_patch w.site p prev)
    unfolding put_patch
    put_patch-Safe none s r = tt
    put_patch-Safe (some q) s r =
        let head : IsHead w q.head = subst (λ (x : Pointer). IsHead w x.head) (sym r.same) r.head in
        Safe-bind w (Verified w q.head.hash) (EdgeFits w p q.head.hash) s (old_bytes w.site q) _
          (old_bytes-Safe w q s) (λ old t st v. from q.head.hash head.release old t v)
      where
        from :
            (h : Hash)
            → w.Release h
            → (old : Option (List ℕ)) (t : Store) → Verified w h old t
            → Safe w (EdgeFits w p h) t (put_from w.site p h old)
        from h is_h none t v = tt
        from h is_h (some b) t v = put_made-Safe h _ t is_h (
            ap (λ (x : List ℕ). encode w.site.calls x (w.content p.hash) options)
              (sym (right_w.unique h b is_h v))
            ∙ ap (λ (x : List ℕ). encode w.site.calls b x options) (sym is_p.bin))

    put_pointer-Safe :
        (prev : Option Pointer) (edge : Option Edge) (s : Store)
        → Read w prev s
        → EdgeFits w p (source_of prev) edge s
        → Safe w (Any w) s (put_pointer w.site p prev edge)
    unfolding put_pointer
    put_pointer-Safe prev edge s r fits = λ t0 st0 right0 c lt t st right.
        let su = Keeps-trans w s t0 t st0 st in
        let r' = Read-Keeps w prev s t su r in
        let fits' = fits-Keeps w p (source_of prev) edge s t su fits in
        let x = next_pointer p prev edge c in
        let parsed = next_pointer-parsed w right_w p is_p prev edge c t lt r' fits' in
        (
          λ tag allowed v.
              let o = version w (w.site.marshal x) tag in
              (
                write_pointer-IsFine w right_w t right o
                    (record {
                      version = v;
                      p = x;
                      parsed = parsed;
                      head = next_head prev edge c;
                      chain = next_chain-IsGood w right_w p is_p prev edge c t r' fits';
                    })
                    (next_pointer-Moves w right_w p is_p prev edge c t o right r' fits' allowed
                      parsed),
                tt,
              ),
          λ a ne. tt,
        )
      where
        next_head :
            (prev : Option Pointer) (edge : Option Edge) (c : ℕ)
            → IsHead w (next_pointer p prev edge c).head
        next_head prev edge c = record {
          release = is_p.release;
          size = ap (λ (b : List ℕ). length b) is_p.bin;
          blob = ap some is_p.blob;
        }

    upload-Safe : (s : Store) → Safe w (Any w) s (upload p)
    unfolding upload
    upload-Safe s =
        let key = ap (λ (b : Blob). b.key) is_p.blob in
        Safe-bind w (Any w) (Any w) s (put_object p.blob.key p.blob_obj) _
          (put_blob-Safe p.hash p.blob.key p.blob_obj s is_p.release key is_p.obj)
          (λ x t st y u tu right. tt)

    attempt-Safe :
        (again : Prog (Unit {0}))
        → ((t : Store) → Safe w (Any w) t again)
        → (s : Store) → Safe w (Any w) s (attempt w.site p again)
    unfolding attempt
    attempt-Safe again more s =
        Safe-bind w (Read w) (Any w) s (read_pointer w.site) _ (read_pointer-Safe w s)
          λ prev t st r.
            Safe-bind w (Any w) (Any w) t (finish_blob w.site p prev) _ (finish_blob-Safe prev t r)
              λ _ u tu _.
                let r1 = Read-Keeps w prev t u tu r in
                Safe-if w (Any w) u (is_published p prev) (pure tt) _ (λ _. tt)
                  λ _.
                    Safe-bind w (EdgeFits w p (source_of prev)) (Any w) u (put_patch w.site p prev)
                      _ (put_patch-Safe prev u r1)
                      λ edge v uv fits.
                        Safe-bind w (Any w) (Any w) v (put_pointer w.site p prev edge) _
                          (put_pointer-Safe prev edge v (Read-Keeps w prev u v uv r1) fits)
                          λ a x vx _. after a x
      where
        after : (a : PutAnswer) (x : Store) → Safe w (Any w) x (replaced p again a)
        after done x = upload-Safe x
        after lost_race x = more x
        after put_broken x = tt

    pub attempts-Safe : (n : ℕ) (s : Store) → Safe w (Any w) s (attempts w.site p n)
    unfolding attempts
    attempts-Safe zero s = attempt-Safe (fail store_error) (λ t. tt) s
    attempts-Safe (suc n) s = attempt-Safe (attempts w.site p n) (λ t. attempts-Safe n t) s

  -- A publish, from any store on.
  pub run-Safe :
      (bin text : List ℕ)
      → w.Release (w.site.calls.hash_of bin)
      → (s : Store) → Safe w (Any w) s (run w.site bin text)
  unfolding run
  run-Safe bin text is_release s =
      attempts-Safe (new_publisher w.site bin text)
        (new_publisher-IsPublisher w right_w bin text is_release) (cas_attempts - 1) s
