-- ===== src/Agent/Frames/Arrived.antt =====
-- What has arrived is right, and what has not is still on its way.
pub mod Queue
use go_binsync.Prelude.{
  ℕ, zero, suc, ◌+◌, ◌-◌, ◌≡◌, ◌≢◌, ◌≤◌, ◌<◌, ◌⊎◌, inl, inr, refl, sym, ap, ◌∙◌, Bool, true, false,
  List, [], ◌∷◌, some, Result, ok, err, panic, stuck, length, take, map, get_elem?, set, slice,
  length-set, length-map, get_elem?-set_self, get_elem?-set_ne, take-length_le, length-slice,
  >>=-eq-ok, arith,
}
use go_binsync.Prelude.Elements.{
  get_elem?-slice, length-overwrite_in, get_elem?-overwrite_in, get_elem?-overwrite_below,
  get_elem?-overwrite_above, same_elements,
}
use mathlib.Core.Path.{subst}
use native.Mathlib.Decide.{dec_lt, ℕ_discrete}
use go_binsync.Cz.{Codecs}
use go_binsync.Release.Hash.{Hash}
use go_binsync.Release.Pointer.{Frame, Blob}
use go_binsync.Release.Blob.{BlobError, decode_frame}
use go_binsync.Agent.Fetch.{fetch_tries}
use go_binsync.Agent.Frames.{
  Requests, frame_loop, verified, fetch_frame, copy_frame, Pass, absent, start_pass, without,
  contains, Step, taken, left, arrived, failed, stopped, IsEnded, Reach, begin, later, again,
}
use go_binsync.Agent.Frames.Arrived.Queue.{
  contains-without, contains-head, contains_self, contains_tail, contains-absent, none_in,
  get_elem?-lt,
}

module _ (c : Codecs) (hash_of : List ℕ → Hash) (b : Blob) (content : List ℕ) where
  -- The blob describes the content: whatever passes for a frame of it is that part of the content, and
  -- every byte is in a frame.
  pub record Describes : Type 0 where
    pub piece :
        (i : ℕ) (f : Frame) (z plain : List ℕ)
        → get_elem? b.frames i ≡ some f
        → decode_frame c hash_of f z ≡ ok plain
        → (f.off + f.len ≤ length content) × (plain ≡ slice f.off (f.off + f.len) content)
    pub cover :
        (k : ℕ)
        → k < length content
        → (i : ℕ) × (f : Frame) × (get_elem? b.frames i ≡ some f)
          × (f.off ≤ k)
          × (k < f.off + f.len)

  fetch_frame-decoded :
      (r : Requests) (f : Frame) (plain : List ℕ)
      → fetch_frame c hash_of r f ≡ ok plain
      → (z : List ℕ) × (decode_frame c hash_of f z ≡ ok plain)
  unfolding fetch_frame
  fetch_frame-decoded r f plain h =
      let (z, _, e) = >>=-eq-ok (frame_loop (fetch_tries - 1) r f.zlen) _ h in
      (z, decoded (decode_frame c hash_of f z) e)
    where
      decoded : (d : Result BlobError (List ℕ)) → verified d ≡ ok plain → d ≡ ok plain
      decoded (ok x) e = cc
      decoded (err x) e = cc
      decoded panic e = cc
      decoded stuck e = cc

  record Inv (p : Pass) : Type 0 where
    pub size : length p.out ≡ length content
    pub haves : length p.have ≡ length b.frames
    pub right :
        (i : ℕ) (f : Frame) (k : ℕ)
        → get_elem? b.frames i ≡ some f
        → get_elem? p.have i ≡ some true
        → f.off ≤ k
        → k < f.off + f.len
        → get_elem? p.out k ≡ get_elem? content k
    pub coming :
        (i : ℕ)
        → i < length b.frames
        → (get_elem? p.have i ≡ some true)
          ⊎ (contains i p.todo ≡ true)
          ⊎ (contains i p.busy ≡ true)
          ⊎ (p.over ≡ true)

  -- A copy of a frame that passed: it is right inside the frame, and changes nothing outside.
  copy_frame-right :
      (out : List ℕ) (f : Frame) (plain : List ℕ)
      → length out ≡ length content
      → f.off + f.len ≤ length content
      → plain ≡ slice f.off (f.off + f.len) content
      → (length (copy_frame out f.off plain) ≡ length content)
        × ((k : ℕ)
            → (f.off ≤ k)
            → (k < f.off + f.len)
            → get_elem? (copy_frame out f.off plain) k ≡ get_elem? content k)
        × ((k : ℕ)
            → get_elem? out k ≡ get_elem? content k
            → get_elem? (copy_frame out f.off plain) k ≡ get_elem? content k)
  unfolding copy_frame
  copy_frame-right out f plain size inside is_plain =
      let n : length plain ≡ f.len =
        ap length is_plain
        ∙ length-slice f.off (f.off + f.len) content (omega arith) inside
        ∙ omega arith in
      let whole : take (length out - f.off) plain ≡ plain =
        take-length_le (length out - f.off) plain (omega arith) in
      let fits : f.off + length plain ≤ length out = omega arith in
      let within = λ (k : ℕ) (lo : f.off ≤ k) (hi : k < f.off + f.len).
        get_elem?-overwrite_in f.off plain out fits k lo (omega arith)
        ∙ ap (λ (t : List ℕ). get_elem? t (k - f.off)) is_plain
        ∙ get_elem?-slice f.off (f.off + f.len) content (k - f.off) (omega arith)
        ∙ ap (λ (t : ℕ). get_elem? content t) {x = f.off + (k - f.off)} (omega arith) in
      rw whole (
        length-overwrite_in f.off plain out fits ∙ size,
        within,
        λ k same. elim (dec_lt k f.off) [
          | yes below ↦ get_elem?-overwrite_below f.off plain out fits k below ∙ same
          | no not_below ↦ elim (dec_lt k (f.off + f.len)) [
            | yes in_frame ↦ let lo : f.off ≤ k = omega arith in within k lo in_frame
            | no above ↦
                let hi : f.off + length plain ≤ k = omega arith in
                get_elem?-overwrite_above f.off plain out fits k hi ∙ same
          ]
        ],
      )

  start-Inv :
      (out : List ℕ) (have : List Bool) (over : Bool)
      → length out ≡ length content
      → length have ≡ length b.frames
      → ((i : ℕ) (f : Frame) (k : ℕ)
          → get_elem? b.frames i ≡ some f
          → get_elem? have i ≡ some true
          → f.off ≤ k
          → k < f.off + f.len
          → get_elem? out k ≡ get_elem? content k)
      → Inv (start_pass out have over)
  unfolding start_pass
  start-Inv out have over size haves right = record {
    size = size;
    haves = haves;
    right = right;
    coming = λ i h. elim (contains-absent 0 i have (omega arith)) [
      | inl here ↦ inl here
      | inr there ↦ inr (
          inl
            (subst (λ (m : ℕ). contains m (absent 0 have) ≡ true) {x = 0 + i} (omega arith) there))
    ];
  }

  Step-Inv : Describes → (p q : Pass) → Step c hash_of b p q → Inv p → Inv q
  Step-Inv d p q (taken i rest running few at) v = record {
    size = v.size;
    haves = v.haves;
    right = v.right;
    coming = λ j h. elim (v.coming j h) [
      | inl here ↦ inl here
      | inr (inl queued) ↦
          elim (contains-head j i rest (subst (λ l. contains j l ≡ true) at queued)) [
            | inl same ↦ inr (
                inr (
                  inl (
                    subst (λ (m : ℕ). contains m (i ∷ p.busy) ≡ true) (sym same)
                      (contains_self i p.busy))))
            | inr more ↦ inr (inl more)
          ]
      | inr (inr (inl held)) ↦ inr (inr (inl (contains_tail j i p.busy held)))
      | inr (inr (inr over)) ↦ inr (inr (inr over))
    ];
  }
  Step-Inv d p q (left i rest over at) v = record {
    size = v.size;
    haves = v.haves;
    right = v.right;
    coming = λ j h. inr (inr (inr over));
  }
  Step-Inv d p q (arrived i f r plain held is_f got) v =
      let (z, decoded) = fetch_frame-decoded r f plain got in
      let (inside, is_plain) = d.piece i f z plain is_f decoded in
      let (size, within, outside) = copy_frame-right p.out f plain v.size inside is_plain in
      record {
        size = size;
        haves = length-set p.have i true ∙ v.haves;
        right = λ j g k is_g have lo hi. elim (ℕ_discrete i j) [
          | yes same ↦
              let e : g ≡ f = some_inj (sym is_g ∙ ap (get_elem? b.frames) (sym same) ∙ is_f) in
              within k (subst (λ (x : Frame). x.off ≤ k) e lo)
                (subst (λ (x : Frame). k < x.off + x.len) e hi)
          | no differs ↦
              outside k
                (v.right j g k is_g (sym (get_elem?-set_ne p.have true differs) ∙ have) lo hi)
        ];
        coming = λ j h. elim (v.coming j h) [
          | inl here ↦ elim (ℕ_discrete i j) [
            | yes same ↦ inl (arrived_now j same h)
            | no differs ↦ inl (get_elem?-set_ne p.have true differs ∙ here)
          ]
          | inr (inl queued) ↦ inr (inl queued)
          | inr (inr (inl in_hand)) ↦ elim (contains-without j i p.busy in_hand) [
            | inl same ↦ inl (arrived_now j (sym same) h)
            | inr more ↦ inr (inr (inl more))
          ]
          | inr (inr (inr over)) ↦ inr (inr (inr over))
        ];
      }
    where
      some_inj : {x y : Frame} → some x ≡ some y → x ≡ y
      some_inj e = cc

      arrived_now :
          (j : ℕ) → i ≡ j → j < length b.frames → get_elem? (set p.have i true) j ≡ some true
      arrived_now j same h =
          ap (get_elem? (set p.have i true)) (sym same)
          ∙ get_elem?-set_self p.have i true (omega (arith, v.haves))
  Step-Inv d p q (failed i f r e held is_f got) v = record {
    size = v.size;
    haves = v.haves;
    right = v.right;
    coming = λ j h. inr (inr (inr refl));
  }
  Step-Inv d p q stopped v = record {
    size = v.size;
    haves = v.haves;
    right = v.right;
    coming = λ j h. inr (inr (inr refl));
  }

  none_yet : (fs : List Frame) (i : ℕ) → get_elem? (map (λ f. false) fs) i ≢ some true
  none_yet [] i h = cc
  none_yet (f ∷ fs) zero h = cc
  none_yet (f ∷ fs) (suc i) h = none_yet fs i h

  Reach-Inv :
      Describes
      → (out : List ℕ) (p : Pass) → length out ≡ length content
      → Reach c hash_of b out p
      → Inv p
  Reach-Inv d out p size (begin over) =
      start-Inv out (map (λ f. false) b.frames) over size (length-map b.frames (λ f. false))
        (λ i f k is_f have. absurd (none_yet b.frames i have))
  Reach-Inv d out p size (later {p = q} r step) = Step-Inv d q p step (Reach-Inv d out q size r)
  Reach-Inv d out p size (again {p = q} r ended missing over) =
      let v = Reach-Inv d out q size r in start-Inv q.out q.have over v.size v.haves v.right

  -- Where a blob describes a content, of the length of the buffer: in whatever order the workers take
  -- frames and the frames arrive, with whatever failures, and however many passes there were before:
  -- when all workers of a pass have left and its context is not done, the buffer is the content.
  pub Reach-content :
      (out : List ℕ) (p : Pass)
      → Describes
      → length out ≡ length content
      → Reach c hash_of b out p
      → IsEnded c hash_of b p
      → p.over ≡ false
      → p.out ≡ content
  Reach-content out p d size r (idle, at_end) running =
      let v = Reach-Inv d out p size r in
      same_elements p.out content v.size λ k h.
        let (i, f, is_f, lo, hi) = d.cover k h in
        v.right i f k is_f (here v i (get_elem?-lt b.frames i is_f)) lo hi
    where
      here : Inv p → (i : ℕ) → i < length b.frames → get_elem? p.have i ≡ some true
      here v i h = elim (v.coming i h) [
        | inl there ↦ there
        | inr (inl queued) ↦ absurd (elim at_end [
          | inl done ↦ none_in i p.todo queued done
          | inr over ↦ cc (over, running)
        ])
        | inr (inr (inl held)) ↦ absurd (none_in i p.busy held idle)
        | inr (inr (inr over)) ↦ cc
      ]
