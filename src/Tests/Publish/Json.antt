-- ===== src/Tests/Publish/Json.antt =====
-- A coding of pointers that stands for encoding/json: each list behind its length.
use go_binsync.Prelude.{
  ℕ, zero, suc, ◌%◌, ◌^◌, ◌<◌, ◌≡◌, refl, List, [], ◌∷◌, ◌++◌, Option, none, some, length, take,
  drop, take-append, drop-append, arith,
}
use mathlib.Core.Path.{subst}
use go_binsync.Release.Pointer.{Frame, Blob, Edge, Pointer}

unfoldable pub put_list : List ℕ → List ℕ → List ℕ
put_list xs rest = length xs ∷ (xs ++ rest)

unfoldable pub get_nat : List ℕ → ℕ × List ℕ
get_nat [] = (0, [])
get_nat (n ∷ r) = (n, r)

unfoldable pub get_list : List ℕ → List ℕ × List ℕ
get_list b = let (n, r) = get_nat b in (take n r, drop n r)

get_list-put_list : (xs rest : List ℕ) → get_list (put_list xs rest) ≡ (xs, rest)
unfolding get_list put_list get_nat
get_list-put_list xs rest =
    rw (take-append xs rest (length xs) refl, drop-append xs rest (length xs) refl) refl

unfoldable pub put_frame : Frame → List ℕ → List ℕ
put_frame f rest = f.off ∷ f.len ∷ f.zoff ∷ f.zlen ∷ f.codec ∷ put_list f.b3 rest

unfoldable pub get_frame : List ℕ → Frame × List ℕ
get_frame b =
    let (off, r1) = get_nat b in
    let (len, r2) = get_nat r1 in
    let (zoff, r3) = get_nat r2 in
    let (zlen, r4) = get_nat r3 in
    let (codec, r5) = get_nat r4 in
    let (b3, r6) = get_list r5 in
    (record { off = off; len = len; zoff = zoff; zlen = zlen; codec = codec; b3 = b3 }, r6)

unfoldable pub put_edge : Edge → List ℕ → List ℕ
put_edge e rest =
    put_list e.source (put_list e.target (put_list e.key (e.size ∷ put_list e.b3 rest)))

unfoldable pub get_edge : List ℕ → Edge × List ℕ
get_edge b =
    let (source, r1) = get_list b in
    let (target, r2) = get_list r1 in
    let (key, r3) = get_list r2 in
    let (size, r4) = get_nat r3 in
    let (b3, r5) = get_list r4 in
    (record { source = source; target = target; key = key; size = size; b3 = b3 }, r5)

get_frame-put_frame : (f : Frame) (rest : List ℕ) → get_frame (put_frame f rest) ≡ (f, rest)
unfolding get_frame put_frame get_nat
get_frame-put_frame f rest = rw (get_list-put_list f.b3 rest) refl

get_edge-put_edge : (e : Edge) (rest : List ℕ) → get_edge (put_edge e rest) ≡ (e, rest)
unfolding get_edge put_edge get_nat
get_edge-put_edge e rest =
    rw
      (
        get_list-put_list e.source
            (put_list e.target (put_list e.key (e.size ∷ put_list e.b3 rest))),
        get_list-put_list e.target (put_list e.key (e.size ∷ put_list e.b3 rest)),
        get_list-put_list e.key (e.size ∷ put_list e.b3 rest),
        get_list-put_list e.b3 rest,
      )
      refl

-- A list of anything, by its writer and its reader.
module _ {A : Type 0} (put_one : A → List ℕ → List ℕ) (get_one : List ℕ → A × List ℕ) where
  unfoldable pub put_each : List A → List ℕ → List ℕ
  put_each [] rest = rest
  put_each (x ∷ xs) rest = put_one x (put_each xs rest)

  unfoldable pub get_each : ℕ → List ℕ → List A × List ℕ
  get_each zero b = ([], b)
  get_each (suc n) b = let (x, r) = get_one b in let (xs, r') = get_each n r in (x ∷ xs, r')

  get_each-put_each :
      ((x : A) (rest : List ℕ) → get_one (put_one x rest) ≡ (x, rest))
      → (xs : List A) (rest : List ℕ) → get_each (length xs) (put_each xs rest) ≡ (xs, rest)
  unfolding get_each put_each
  get_each-put_each back [] rest = refl
  get_each-put_each back (x ∷ xs) rest =
      rw (back x (put_each xs rest), get_each-put_each back xs rest) refl

unfoldable pub put_frames : List Frame → List ℕ → List ℕ
put_frames fs rest = length fs ∷ put_each put_frame get_frame fs rest

unfoldable pub get_frames : List ℕ → List Frame × List ℕ
get_frames b = let (n, r) = get_nat b in get_each put_frame get_frame n r

get_frames-put_frames :
    (fs : List Frame) (rest : List ℕ) → get_frames (put_frames fs rest) ≡ (fs, rest)
unfolding get_frames put_frames get_nat
get_frames-put_frames fs rest = get_each-put_each put_frame get_frame get_frame-put_frame fs rest

unfoldable pub put_edges : List Edge → List ℕ → List ℕ
put_edges es rest = length es ∷ put_each put_edge get_edge es rest

unfoldable pub get_edges : List ℕ → List Edge × List ℕ
get_edges b = let (n, r) = get_nat b in get_each put_edge get_edge n r

get_edges-put_edges : (es : List Edge) (rest : List ℕ) → get_edges (put_edges es rest) ≡ (es, rest)
unfolding get_edges put_edges get_nat
get_edges-put_edges es rest = get_each-put_each put_edge get_edge get_edge-put_edge es rest

unfoldable pub put_blob : Option Blob → List ℕ → List ℕ
put_blob none rest = 0 ∷ rest
put_blob (some b) rest = 1 ∷ put_list b.key (b.size ∷ put_frames b.frames rest)

unfoldable pub get_some : List ℕ → Option Blob × List ℕ
get_some b =
    let (key, r1) = get_list b in
    let (size, r2) = get_nat r1 in
    let (frames, r3) = get_frames r2 in
    (some (record { key = key; size = size; frames = frames }), r3)

unfoldable pub get_blob : List ℕ → Option Blob × List ℕ
get_blob [] = (none, [])
get_blob (zero ∷ r) = (none, r)
get_blob (suc n ∷ r) = get_some r

get_blob-put_blob : (o : Option Blob) (rest : List ℕ) → get_blob (put_blob o rest) ≡ (o, rest)
unfolding get_blob put_blob get_nat get_some
get_blob-put_blob none rest = refl
get_blob-put_blob (some b) rest =
    rw
      (
        get_list-put_list b.key (b.size ∷ put_frames b.frames rest),
        get_frames-put_frames b.frames rest,
      )
      refl

unfoldable pub marshal : Pointer → List ℕ
marshal p =
    p.format
    ∷ p.seq
    ∷ put_list p.head.hash
        (put_list p.head.version (p.head.size ∷ put_blob p.head.blob (put_edges p.chain [])))

unfoldable pub unmarshal : List ℕ → Option Pointer
unmarshal b =
    let (format, r1) = get_nat b in
    let (seq, r2) = get_nat r1 in
    let (hash, r3) = get_list r2 in
    let (text, r4) = get_list r3 in
    let (size, r5) = get_nat r4 in
    let (blob, r6) = get_blob r5 in
    let (chain, _) = get_edges r6 in
    some (record {
      format = format;
      seq = seq % 2 ^ 64;
      head = record { hash = hash; version = text; size = size; blob = blob };
      chain = chain;
      etag = [];
    })

pub unmarshal-marshal :
    (p : Pointer) → p.seq < 2 ^ 64 → unmarshal (marshal p) ≡ some (record p { etag = [] })
unfolding unmarshal marshal get_nat
unmarshal-marshal p lt =
    let seq : p.seq % 2 ^ 64 ≡ p.seq = omega arith in
    rw
      (
        get_list-put_list p.head.hash
            (put_list p.head.version (p.head.size ∷ put_blob p.head.blob (put_edges p.chain []))),
        get_list-put_list p.head.version
            (p.head.size ∷ put_blob p.head.blob (put_edges p.chain [])),
        get_blob-put_blob p.head.blob (put_edges p.chain []),
        get_edges-put_edges p.chain [],
        seq,
      )
      refl

pub unmarshal-seq : (b : List ℕ) (p : Pointer) → unmarshal b ≡ some p → p.seq < 2 ^ 64
unfolding unmarshal
unmarshal-seq b p h = subst (λ (q : Pointer). q.seq < 2 ^ 64) (some_inj h) (omega arith)
  where
    some_inj : {x y : Pointer} → some x ≡ some y → x ≡ y
    some_inj e = cc
