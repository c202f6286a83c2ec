-- ===== src/Tests/Publish/Trace.antt =====
-- Runs of publishers over a store that answers every call.
use go_binsync.Prelude.{
  ℕ, zero, suc, ◌≡◌, ◌≢◌, refl, Bool, true, false, List, [], ◌∷◌, Option, none, some, arith,
}
use go_binsync.Release.Hash.{Hash, bytes_eq}
use go_binsync.Release.Hash.RoundTrip.{bytes_eq_iff}
use go_binsync.Publish.Program.{
  Prog, pure, fail, get, put, read_cache, write_cache, now, found, missing, done, lost_race,
  put_broken,
}
use go_binsync.Publish.Store.{
  Object, Store, write, etag_of, cut, Call, got, written, refused, cache_read, cache_written, clock,
  System, Step, turn, start, Reach, empty, later,
}
use go_binsync.Publish.{
  run, attempts, attempt, read_pointer, new_publisher, finish_blob, put_patch, put_pointer, upload,
  put_object, next_pointer,
}
use go_binsync.Tests.Publish.Site.{file, content_of, setting}

abbrev same_tag : List ℕ → List ℕ
same_tag t = t

record Turned (s : Store) (m : Prog (Unit {0})) : Type 0 where
  t : Store
  q : Prog (Unit {0})
  call : Call same_tag s m t q

honest_get :
    (s : Store) (key : List ℕ) (range : Option (ℕ × ℕ)) (k : _ → Prog (Unit {0}))
    (o : Option Object)
    → s key ≡ o
    → Turned s (get key range k)
honest_get s key range k none e = record { t = s; q = k missing; call = got missing e }
honest_get s key range k (some o) e = record {
  t = s;
  q = k (found (cut range o.body) o.etag);
  call = got (found (cut range o.body) o.etag) (o, e, refl, refl);
}

honest_match :
    (s : Store) (key body tag : List ℕ) (k : _ → Prog (Unit {0})) (x : Bool)
    → bytes_eq (etag_of (s key)) tag ≡ x
    → body ≢ []
    → Turned s (put key body (some tag) k)
honest_match s key body tag k true same some_body = record {
  t = write s key (record { body = body; etag = body });
  q = k done;
  call =
      written body done ((bytes_eq_iff (etag_of (s key)) tag).0 same)
        (record { body = refl; tagged = some_body });
}
honest_match s key body tag k false differs some_body = record {
  t = s;
  q = k lost_race;
  call = refused lost_race (λ e. cc);
}

honest_put :
    (s : Store) (key body : List ℕ) (im : Option (List ℕ)) (k : _ → Prog (Unit {0}))
    → Turned s (put key body im k)
unfolding honest_match
honest_put s key [] im k = record { t = s; q = k put_broken; call = refused put_broken (λ e. cc) }
honest_put s key (x ∷ xs) none k = record {
  t = write s key (record { body = x ∷ xs; etag = x ∷ xs });
  q = k done;
  call = written (x ∷ xs) done tt (record { body = refl; tagged = λ e. cc });
}
honest_put s key (x ∷ xs) (some tag) k =
    honest_match s key (x ∷ xs) tag k (bytes_eq (etag_of (s key)) tag) refl (λ e. cc)

honest : (s : Store) (m : Prog (Unit {0})) → Option (Turned s m)
unfolding honest_get honest_put
honest s (pure a) = none
honest s (fail e) = none
honest s (get key range k) = some (honest_get s key range k (s key) refl)
honest s (put key body im k) = some (honest_put s key body im k)
honest s (read_cache h k) =
    some (record { t = s; q = k (some (content_of h)); call = cache_read (some (content_of h)) })
honest s (write_cache h b k) = some (record { t = s; q = k; call = cache_written })
honest s (now k) = some (record { t = s; q = k 1000; call = clock 1000 (omega arith) })

pub record Trace : Type 1 where
  pub last : System
  pub reach : Reach setting last

turned : (i : ℕ) (r : Trace) → Option (Turned r.last.store (r.last.publishers i)) → Trace
turned i r none = r
turned i r (some x) = record { last = _; reach = later r.reach (turn i x.call) }

-- Publisher `i` makes `n` calls.
turns : ℕ → ℕ → Trace → Trace
unfolding turned honest
turns zero i r = r
turns (suc n) i r = turns n i (turned i r (honest r.last.store (r.last.publishers i)))

started : ℕ → Bool → Trace → Trace
unfolding bytes_eq
started i true r = record { last = _; reach = later r.reach (start i (file true) [] (true, refl)) }
started i false r = record {
  last = _;
  reach = later r.reach (start i (file false) [] (false, refl));
}

nothing_yet : Trace
nothing_yet = record { last = _; reach = empty }

-- The release `false`, and then the release `true`, each by a publisher of its own.
unfoldable pub first_publish : Trace
unfolding turns started nothing_yet write run attempts attempt read_pointer new_publisher
    finish_blob put_patch put_pointer upload put_object next_pointer
    go_binsync.Tests.Publish.Json.get_nat go_binsync.Tests.Publish.Json.get_list
    go_binsync.Tests.Publish.Json.put_list go_binsync.Tests.Publish.Json.get_edges
    go_binsync.Tests.Publish.Json.get_each go_binsync.Tests.Publish.Json.get_blob
    go_binsync.Tests.Publish.Json.put_blob go_binsync.Tests.Publish.Json.get_some
    go_binsync.Tests.Publish.Json.get_frames go_binsync.Tests.Publish.Json.put_frames
    go_binsync.Tests.Publish.Json.get_frame go_binsync.Tests.Publish.Json.put_each
    go_binsync.Tests.Publish.Json.put_frame go_binsync.Tests.Publish.Json.put_edges
    go_binsync.Tests.Publish.Json.get_edge go_binsync.Tests.Publish.Json.put_edge
    go_binsync.Tests.Publish.Json.unmarshal go_binsync.Tests.Publish.Json.marshal
    native.Mathlib.Decide.ℕ_discrete go_binsync.Delta.Codec.encode go_binsync.Int64.le64
    go_binsync.Delta.Plain.Encode.encode_plain go_binsync.Delta.Lz.Match.find
    go_binsync.Delta.Lz.Match.set_probe go_binsync.Delta.Lz.Match.new_index go_binsync.Int64.add64
    go_binsync.Delta.Container.marshal_header go_binsync.Cz.compress go_binsync.Cz.smaller
    go_binsync.Cz.try_brotli go_binsync.Delta.Buf.Put.bytes go_binsync.Delta.Buf.Put.raw
    go_binsync.Delta.Buf.Put.s go_binsync.Delta.Buf.Put.u go_binsync.Delta.Codec.header_of
    go_binsync.Delta.Codec.make_body go_binsync.Delta.Codec.transform_cap
    go_binsync.Delta.Container.Body.add_frame go_binsync.Delta.Container.Body.frame_body
    go_binsync.Delta.Container.Body.frame_loop go_binsync.Delta.Container.put_frame
    go_binsync.Delta.Container.put_frames go_binsync.Delta.Container.put_record
    go_binsync.Delta.Lz.Match.match_len go_binsync.Delta.Plain.Encode.agreements
    go_binsync.Delta.Plain.Encode.agrees go_binsync.Delta.Plain.Encode.diff_loop
    go_binsync.Delta.Plain.Encode.emits go_binsync.Delta.Plain.Encode.extend
    go_binsync.Delta.Plain.Encode.extensions go_binsync.Delta.Plain.Encode.hint_of
    go_binsync.Delta.Plain.Encode.look go_binsync.Delta.Plain.Encode.move_on
    go_binsync.Delta.Plain.Encode.pack_plain go_binsync.Delta.Plain.Encode.plain_diff
    go_binsync.Delta.Plain.Encode.put_triple go_binsync.Delta.Plain.Encode.round
    go_binsync.Delta.Plain.Encode.scan_loop go_binsync.Delta.Plain.Encode.split
    go_binsync.Delta.Plain.Encode.stops go_binsync.Delta.Plain.Encode.without_overlap
    go_binsync.Delta.Plain.Runs.differences go_binsync.Delta.Plain.Runs.equal_bytes
    go_binsync.Delta.Plain.Runs.put_run go_binsync.Delta.Plain.Runs.run_length
    go_binsync.Delta.Plain.Runs.write go_binsync.Delta.Plain.Runs.write_loop go_binsync.Int64.lt64
    go_binsync.Varint.put_uvarint go_binsync.Varint.put_uvarint_loop go_binsync.Varint.put_varint
    go_binsync.Varint.zigzag go_binsync.Release.Hash.encode_hex go_binsync.Release.Hash.is_zero
    go_binsync.Release.Hash.short go_binsync.Release.Hash.bytes_eq
    go_binsync.Release.Pointer.patch_key go_binsync.Release.Pointer.blob_key
    go_binsync.Release.Pointer.parse_pointer go_binsync.Release.Pointer.check_pointer
    go_binsync.Release.Pointer.check_chain go_binsync.Release.Pointer.check_links
    go_binsync.Release.Pointer.incomplete
first_publish = turns 20 0 (started 0 false nothing_yet)

unfoldable pub second_publish : Trace
unfolding turns started first_publish
second_publish = turns 20 1 (started 1 true first_publish)

-- The step of the second publisher that replaces the pointer.
pub record Move : Type 1 where
  pub before : System
  pub reach : Reach setting before
  pub after : System
  pub step : Step setting before after

moved : (i : ℕ) (r : Trace) → Option (Turned r.last.store (r.last.publishers i)) → Move
unfolding bytes_eq
moved i r none = record {
  before = _;
  reach = r.reach;
  after = _;
  step = start i (file true) [] (true, refl);
}
moved i r (some x) = record { before = _; reach = r.reach; after = _; step = turn i x.call }

before_replacing : Trace
unfolding turns started first_publish
before_replacing = turns 5 1 (started 1 true first_publish)

unfoldable pub replacing : Move
unfolding moved honest before_replacing
replacing =
    moved 1 before_replacing
      (honest before_replacing.last.store (before_replacing.last.publishers 1))
