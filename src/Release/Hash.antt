-- ===== src/Release/Hash.antt =====
-- release/hash.go. A Hash is the list of its 32 bytes; a text is the list of its bytes. The hex
-- coding is that of Go's encoding/hex.
pub mod RoundTrip
use go_binsync.Prelude.{
  ℕ, zero, suc, ◌+◌, ◌-◌, ◌*◌, ◌/◌, ◌%◌, ◌<◌, Bool, true, false, ◌&&◌, ◌||◌, not, List, [], ◌∷◌,
  ◌++◌, Option, none, some, Result, ok, err, ◌≡◌, All, length, take, drop, replicate, ltb, leb,
  ◌==◌, if◌then◌else◌,
}

abbrev pub Hash : Type 0
Hash = List ℕ

-- A digest has 32 bytes.
pub record IsHash (h : Hash) : Type 0 where
  pub size : length h ≡ 32
  pub bytes : All (λ b. b < 256) h

abbrev pub zero_hash : Hash
zero_hash = replicate 32 0

-- `==` on arrays and on strings.
unfoldable pub bytes_eq : List ℕ → List ℕ → Bool
bytes_eq [] [] = true
bytes_eq [] (y ∷ ys) = false
bytes_eq (x ∷ xs) [] = false
bytes_eq (x ∷ xs) (y ∷ ys) = x == y && bytes_eq xs ys

unfoldable pub is_zero : Hash → Bool
unfolding bytes_eq
is_zero h = bytes_eq h zero_hash

hex_digit : ℕ → ℕ
hex_digit n = if ltb n 10 then b'0' + n else b'a' + (n - 10)

-- hex.EncodeToString
unfoldable pub encode_hex : List ℕ → List ℕ
unfolding hex_digit
encode_hex [] = []
encode_hex (b ∷ bs) = hex_digit (b / 16) ∷ hex_digit (b % 16) ∷ encode_hex bs

from_hex : ℕ → Option ℕ
from_hex c =
    if leb b'0' c && leb c b'9'
    then some (c - b'0')
    else if leb b'a' c && leb c b'f'
    then some (c - b'a' + 10)
    else if leb b'A' c && leb c b'F'
    then some (c - b'A' + 10)
    else none

abbrev join_digits : Option ℕ → Option ℕ → Option (List ℕ) → Option (List ℕ)
join_digits (some a) (some b) (some rest) = some ((a * 16 + b) ∷ rest)
join_digits _ _ _ = none

-- hex.DecodeString: an odd length and a character that is no digit are errors.
decode_hex : List ℕ → Option (List ℕ)
unfolding from_hex
decode_hex [] = some []
decode_hex (a ∷ []) = none
decode_hex (a ∷ b ∷ rest) = join_digits (from_hex a) (from_hex b) (decode_hex rest)

abbrev prefix : List ℕ
prefix = b'b' ∷ b'3' ∷ b':' ∷ []

unfoldable pub to_string : Hash → List ℕ
unfolding is_zero encode_hex
to_string h = if is_zero h then [] else prefix ++ encode_hex h

unfoldable pub short : Hash → List ℕ
unfolding is_zero encode_hex
short h = if is_zero h then [] else encode_hex (take 4 h)

pub data HashError : Type 0 where
  no_prefix no_digest : HashError

sized : Option (List ℕ) → Result HashError Hash
sized none = err no_digest
sized (some b) = if length b == 32 then ok b else err no_digest

unfoldable pub parse_hash : List ℕ → Result HashError Hash
unfolding bytes_eq decode_hex sized
parse_hash s =
    if length s == 0
    then ok zero_hash
    else if not (bytes_eq (take 3 s) prefix)
    then err no_prefix
    else sized (decode_hex (drop 3 s))
