-- ===== src/Release/Hash/RoundTrip.antt =====
-- ParseHash reads back what String writes.
use go_binsync.Prelude.{
  ℕ, ◌+◌, ◌*◌, ◌/◌, ◌%◌, ◌<◌, ◌≡◌, refl, ap, ◌∙◌, sym, true, List, [], ◌∷◌, ◌++◌, some, ok, inl,
  inr, length, All, arith, ==_iff, Bool-cases, ◌↔◌,
}
use go_binsync.Release.Hash.{
  Hash, IsHash, zero_hash, prefix, bytes_eq, is_zero, hex_digit, encode_hex, from_hex, decode_hex,
  to_string, sized, parse_hash,
}

pub bytes_eq_iff : (xs ys : List ℕ) → (bytes_eq xs ys ≡ true) ↔ (xs ≡ ys)
unfolding bytes_eq
bytes_eq_iff [] [] = (λ _. refl, λ _. refl)
bytes_eq_iff [] (y ∷ ys) = (λ e. cc, λ e. cc)
bytes_eq_iff (x ∷ xs) [] = (λ e. cc, λ e. cc)
bytes_eq_iff (x ∷ xs) (y ∷ ys) = ground (arith, bytes_eq_iff xs ys)

from_hex-hex_digit : (n : ℕ) → n < 16 → from_hex (hex_digit n) ≡ some n
unfolding from_hex hex_digit
from_hex-hex_digit n h = ground arith

decode_hex-encode_hex : (b : List ℕ) → All (λ x. x < 256) b → decode_hex (encode_hex b) ≡ some b
unfolding decode_hex encode_hex
decode_hex-encode_hex [] h = refl
decode_hex-encode_hex (x ∷ b) (hx, hb) =
    rw
      (
        from_hex-hex_digit (x / 16) (omega arith),
        from_hex-hex_digit (x % 16) (omega arith),
        decode_hex-encode_hex b hb,
      )
      (ap (λ (t : ℕ). some (t ∷ b)) {x = x / 16 * 16 + x % 16} (omega arith))

parse_hash-empty : parse_hash [] ≡ ok zero_hash
unfolding parse_hash
parse_hash-empty = refl

parse_hash-prefix : (h : Hash) → IsHash h → parse_hash (prefix ++ encode_hex h) ≡ ok h
unfolding parse_hash sized
parse_hash-prefix h v =
    rw (decode_hex-encode_hex h v.bytes) (rw ((==_iff (length h) 32).1 v.size) (ground arith))

-- ParseHash of String gives any digest back, the zero hash included.
pub parse_hash-to_string : (h : Hash) → IsHash h → parse_hash (to_string h) ≡ ok h
unfolding to_string
parse_hash-to_string h v = elim (Bool-cases (is_zero h)) [
  | inl z ↦
      rw z (parse_hash-empty ∙ ap ok (sym ((bytes_eq_iff h zero_hash).0 (unfold is_zero in z))))
  | inr nz ↦ rw nz (parse_hash-prefix h v)
]
