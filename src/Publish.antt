-- ===== src/Publish.antt =====
-- cmd/go-binsync/publish.go. A publisher is a `Prog`, the calls that it makes of the store and of its
-- machine; Publish/Store says what the store does between and during those calls. inspect, which only
-- warns and names the version, and the logging are left out.
pub mod Program
pub mod Fetch
pub mod Store
pub mod Right
pub mod Safe
pub mod Reach
pub mod Update
use go_binsync.Prelude.{
  ℕ, zero, suc, ◌-◌, Bool, true, false, ◌||◌, not, List, [], ◌∷◌, Option, none, some, Result, ok,
  err, panic, stuck, length, take, leb, ◌==◌, if◌then◌else◌,
}
use go_binsync.Int64.{add64, le64}
use go_binsync.Release.Hash.{Hash, bytes_eq}
use go_binsync.Release.Pointer.{
  Blob, Head, Edge, Pointer, PointerError, known_format, max_chain, frame_size, parse_pointer,
  patch_key,
}
use go_binsync.Release.Blob.{encode_blob}
use go_binsync.Delta.Errors.{Error}
use go_binsync.Delta.Codec.{Options, encode}
use go_binsync.Publish.Program.{
  Prog, pure, fail, get, put, write_cache, now, Answer, found, missing, broken, PutAnswer, done,
  lost_race, put_broken, store_error, bad_pointer, bad_patch, crashed, ◌>>=◌, ◌>>◌, Site,
}
use go_binsync.Publish.Fetch.{exists, same_frames, cached, fetch_blob}

-- "latest.json"
abbrev pub pointer_key : List ℕ
pointer_key = b'l' ∷ b'a' ∷ b't' ∷ b'e' ∷ b's' ∷ b't' ∷ b'.' ∷ b'j' ∷ b's' ∷ b'o' ∷ b'n' ∷ []

abbrev pub cas_attempts : ℕ
cas_attempts = 3

-- The binary, its hash and version, and the blob built from it.
pub record Publisher : Type 0 where
  pub bin : List ℕ
  pub hash : Hash
  pub version : List ℕ
  pub blob_obj : List ℕ
  pub blob : Blob

-- delta.Options{Stats: &st}
abbrev pub options : Options
options = record { max_transform = 0; plain_only = false }

unfoldable pub new_publisher : Site → List ℕ → List ℕ → Publisher
unfolding encode_blob
new_publisher s bin version =
    let h = s.calls.hash_of bin in
    let (obj, blob) = encode_blob s.calls.codecs s.calls.hash_of h bin frame_size in
    record { bin = bin; hash = h; version = version; blob_obj = obj; blob = blob }

abbrev pub put_answered : PutAnswer → Prog (Unit {0})
put_answered done = pure tt
put_answered lost_race = fail store_error
put_answered put_broken = fail store_error

unfoldable pub put_object : List ℕ → List ℕ → Prog (Unit {0})
put_object key body = put key body none put_answered

abbrev pub read_as : List ℕ → Result PointerError Pointer → Prog (Option Pointer)
read_as etag (ok p) = pure (some (record p { etag = etag }))
read_as etag (err e) = fail bad_pointer
read_as etag panic = fail crashed
read_as etag stuck = fail crashed

abbrev pub pointer_answered : Site → Answer → Prog (Option Pointer)
pointer_answered s (found body etag) = read_as etag (parse_pointer s.unmarshal body)
pointer_answered s missing = pure none
pointer_answered s broken = fail store_error

unfoldable pub read_pointer : Site → Prog (Option Pointer)
unfolding parse_pointer
read_pointer s = get pointer_key none (pointer_answered s)

-- The blob of the head, made again from `content`, where it comes out as the pointer describes it.
unfoldable pub finish_with : Site → Hash → Blob → Option (List ℕ) → Prog (Unit {0})
unfolding encode_blob same_frames put_object
finish_with s h b none = pure tt
finish_with s h b (some content) =
    let (obj, nb) = encode_blob s.calls.codecs s.calls.hash_of h content frame_size in
    if not (nb.size == b.size) || not (same_frames nb.frames b.frames)
    then pure tt
    else put_object b.key obj

abbrev pub own_or_cached : Site → Publisher → Hash → Prog (Option (List ℕ))
own_or_cached s p h = if not (bytes_eq h p.hash) then cached s h else pure (some p.bin)

unfoldable pub finish_head : Site → Publisher → Head → Option Blob → Prog (Unit {0})
unfolding finish_with cached bytes_eq exists
finish_head s p head none = pure tt
finish_head s p head (some b) = do
  there ← exists b.key
  if there
      then pure tt
      else (do content ← own_or_cached s p head.hash; finish_with s head.hash b content)

unfoldable pub finish_blob : Site → Publisher → Option Pointer → Prog (Unit {0})
unfolding finish_head
finish_blob s p none = pure tt
finish_blob s p (some prev) = finish_head s p prev.head prev.head.blob

abbrev pub kept : Hash → Option (List ℕ) → Prog (Option (List ℕ))
kept h none = pure none
kept h (some b) = write_cache h b (pure (some b))

abbrev pub or_fetched : Site → Head → Option Blob → Option (List ℕ) → Prog (Option (List ℕ))
or_fetched s head blob (some b) = pure (some b)
or_fetched s head none none = pure none
or_fetched s head (some blob) none = (do got ← fetch_blob s head.hash blob; kept head.hash got)

unfoldable pub old_bytes : Site → Pointer → Prog (Option (List ℕ))
unfolding cached fetch_blob
old_bytes s prev = do b ← cached s prev.head.hash; or_fetched s prev.head prev.head.blob b

unfoldable pub edge_of : Site → Publisher → Hash → List ℕ → Edge
unfolding patch_key
edge_of s p source patch = record {
  source = source;
  target = p.hash;
  key = patch_key source p.hash;
  size = length patch;
  b3 = s.calls.hash_of patch;
}

abbrev pub put_made : Site → Publisher → Hash → Result Error (List ℕ) → Prog (Option Edge)
put_made s p source (ok patch) = if leb p.blob.size (length patch) then pure none else (do
  put_object (edge_of s p source patch).key patch
  pure (some (edge_of s p source patch)))
put_made s p source (err e) = fail bad_patch
put_made s p source panic = fail crashed
put_made s p source stuck = fail crashed

abbrev pub put_from : Site → Publisher → Hash → Option (List ℕ) → Prog (Option Edge)
put_from s p source none = pure none
put_from s p source (some old) = put_made s p source (encode s.calls old p.bin options)

unfoldable pub put_patch : Site → Publisher → Option Pointer → Prog (Option Edge)
unfolding old_bytes edge_of encode put_object
put_patch s p none = pure none
put_patch s p (some prev) = do old ← old_bytes s prev; put_from s p prev.head.hash old

abbrev pub chain_of : Pointer → Option Edge → List Edge
chain_of prev none = []
chain_of prev (some e) = take max_chain (e ∷ prev.chain)

-- The pointer that replaces `prev`; `t` is NewSeq.
unfoldable pub next_pointer : Publisher → Option Pointer → Option Edge → ℕ → Pointer
unfolding le64 add64
next_pointer p prev edge t = record {
  format = known_format;
  seq = elim prev [ none ↦ t | some q ↦ if le64 t q.seq then add64 q.seq 1 else t ];
  head = record { hash = p.hash; version = p.version; size = length p.bin; blob = some p.blob };
  chain = elim prev [ none ↦ [] | some q ↦ chain_of q edge ];
  etag = [];
}

abbrev pub tag_of : Option Pointer → List ℕ
tag_of none = []
tag_of (some q) = q.etag

unfoldable pub put_pointer : Site → Publisher → Option Pointer → Option Edge → Prog PutAnswer
unfolding next_pointer
put_pointer s p prev edge =
    now λ t. put pointer_key (s.marshal (next_pointer p prev edge t)) (some (tag_of prev)) pure

abbrev pub is_published : Publisher → Option Pointer → Bool
is_published p none = false
is_published p (some q) = bytes_eq q.head.hash p.hash

unfoldable pub upload : Publisher → Prog (Unit {0})
unfolding put_object
upload p = do put_object p.blob.key p.blob_obj; write_cache p.hash p.bin (pure tt)

abbrev pub replaced : Publisher → Prog (Unit {0}) → PutAnswer → Prog (Unit {0})
replaced p again done = upload p
replaced p again lost_race = again
replaced p again put_broken = fail store_error

-- One round of the compare-and-swap loop; `again` is what follows where another publisher was first.
unfoldable pub attempt : Site → Publisher → Prog (Unit {0}) → Prog (Unit {0})
unfolding read_pointer finish_blob put_patch put_pointer upload bytes_eq
attempt s p again = do
  prev ← read_pointer s
  finish_blob s p prev
  if is_published p prev then pure tt else (do
    edge ← put_patch s p prev
    a ← put_pointer s p prev edge
    elim a [ done ↦ upload p | put_broken ↦ fail store_error | lost_race ↦ again ])

-- With `n` attempts left behind this one.
unfoldable pub attempts : Site → Publisher → ℕ → Prog (Unit {0})
unfolding attempt
attempts s p zero = attempt s p (fail store_error)
attempts s p (suc n) = attempt s p (attempts s p n)

unfoldable pub run : Site → List ℕ → List ℕ → Prog (Unit {0})
unfolding new_publisher attempts
run s bin version = attempts s (new_publisher s bin version) (cas_attempts - 1)
