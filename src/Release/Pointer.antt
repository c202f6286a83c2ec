-- ===== src/Release/Pointer.antt =====
-- release/pointer.go: the pointer and what ParsePointer checks of it. Sizes and the sequence number
-- are int64s. The JSON coding is Go's encoding/json, and a parameter where it is used.
use go_binsync.Prelude.{
  ℕ, ◌*◌, ◌^◌, Bool, ◌&&◌, ◌||◌, not, List, [], ◌∷◌, ◌++◌, Option, none, some, Result, ok, err,
  ◌>>=◌, length, ltb, ◌==◌, if◌then◌else◌,
}
use go_binsync.Varint.{is_neg}
use go_binsync.Release.Hash.{Hash, bytes_eq, is_zero, short, encode_hex}

pub record Frame : Type 0 where
  pub off : ℕ
  pub len : ℕ
  pub zoff : ℕ
  pub zlen : ℕ
  pub codec : ℕ
  pub b3 : Hash

pub record Blob : Type 0 where
  pub key : List ℕ
  pub size : ℕ
  pub frames : List Frame

pub record Head : Type 0 where
  pub hash : Hash
  pub version : List ℕ
  pub size : ℕ
  pub blob : Option Blob

pub record Edge : Type 0 where
  pub source : Hash
  pub target : Hash
  pub key : List ℕ
  pub size : ℕ
  pub b3 : Hash

pub record Pointer : Type 0 where
  pub format : ℕ
  pub seq : ℕ
  pub head : Head
  pub chain : List Edge
  pub etag : List ℕ

abbrev pub known_format : ℕ
known_format = 1

abbrev pub max_chain : ℕ
max_chain = 8

abbrev pub frame_size : ℕ
frame_size = 8 * 2 ^ 20

pub data PointerError : Type 0 where
  bad_json no_head bad_head_size incomplete_edge wrong_first broken_link : PointerError
  unknown_format : ℕ → PointerError

-- `e.From.IsZero() || e.To.IsZero() || e.Key == ""`
unfoldable pub incomplete : Edge → Bool
incomplete e = is_zero e.source || is_zero e.target || length e.key == 0

-- The loop over the chain, from an edge with an index above 0 on: `newer` is `p.Chain[i-1].From`.
unfoldable pub check_links : Hash → List Edge → Result PointerError (Unit {0})
unfolding incomplete
check_links newer [] = ok tt
check_links newer (e ∷ rest) =
    let more = check_links e.source rest in
    if incomplete e
    then err incomplete_edge
    else if not (bytes_eq e.target newer)
    then err broken_link
    else more

unfoldable pub check_chain : Hash → List Edge → Result PointerError (Unit {0})
unfolding check_links incomplete
check_chain head [] = ok tt
check_chain head (e ∷ rest) =
    if incomplete e
    then err incomplete_edge
    else if not (bytes_eq e.target head)
    then err wrong_first
    else check_links e.source rest

-- ParsePointer, behind the JSON decoding.
unfoldable pub check_pointer : Pointer → Result PointerError Pointer
unfolding check_chain
check_pointer p =
    if ltb known_format p.format && not (is_neg p.format)
    then err (unknown_format p.format)
    else if is_zero p.head.hash
    then err no_head
    else if is_neg p.head.size
    then err bad_head_size
    else (do _ ← check_chain p.head.hash p.chain; ok p)

unfoldable pub parse_pointer : (List ℕ → Option Pointer) → List ℕ → Result PointerError Pointer
unfolding check_pointer
parse_pointer unmarshal b = elim (unmarshal b) [ none ↦ err bad_json | some p ↦ check_pointer p ]

-- "patches/", ".bsz", "blobs/" and ".blob".
abbrev patches_dir : List ℕ
patches_dir = b'p' ∷ b'a' ∷ b't' ∷ b'c' ∷ b'h' ∷ b'e' ∷ b's' ∷ b'/' ∷ []

abbrev patch_ending : List ℕ
patch_ending = b'.' ∷ b'b' ∷ b's' ∷ b'z' ∷ []

abbrev blobs_dir : List ℕ
blobs_dir = b'b' ∷ b'l' ∷ b'o' ∷ b'b' ∷ b's' ∷ b'/' ∷ []

abbrev blob_ending : List ℕ
blob_ending = b'.' ∷ b'b' ∷ b'l' ∷ b'o' ∷ b'b' ∷ []

unfoldable pub patch_key : Hash → Hash → List ℕ
unfolding short
patch_key source target = patches_dir ++ (short source ++ (b'-' ∷ (short target ++ patch_ending)))

unfoldable pub blob_key : Hash → List ℕ
unfolding encode_hex
blob_key h = blobs_dir ++ (encode_hex h ++ blob_ending)
