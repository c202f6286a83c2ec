-- ===== src/Varint.antt =====
-- The calls of Go's encoding/binary that delta/ makes: PutUvarint, PutVarint, Uvarint, Varint.
-- A byte is a number below 256; a uint64 is a number below 2^64; an int64 is its bit pattern.
pub mod Laws
use go_binsync.Prelude.{
  ℕ, zero, suc, ◌+◌, ◌-◌, ◌*◌, ◌/◌, ◌%◌, ◌^◌, ◌<◌, Bool, ◌&&◌, Option, none, some, List, [], ◌∷◌,
  ltb, leb, ◌==◌, if◌then◌else◌,
}

abbrev pub IsU64 : ℕ → Type 0
IsU64 v = v < 2 ^ 64

-- `x < 0` of the int64 with the bits `x`.
abbrev pub is_neg : ℕ → Bool
is_neg x = leb (2 ^ 63) x

-- `for x >= 0x80 { buf[i] = byte(x) | 0x80; x >>= 7; i++ }; buf[i] = byte(x)`. The first argument
-- bounds the rounds: a uint64 has ten groups of seven bits.
unfoldable pub put_uvarint_loop : ℕ → ℕ → List ℕ
put_uvarint_loop zero x = x % 256 ∷ []
put_uvarint_loop (suc k) x =
    let more = put_uvarint_loop k (x / 128) in if ltb x 128 then x ∷ [] else (x % 128 + 128) ∷ more

unfoldable pub put_uvarint : ℕ → List ℕ
unfolding put_uvarint_loop
put_uvarint x = put_uvarint_loop 9 x

-- `ux := uint64(x) << 1; if x < 0 { ux = ^ux }`
unfoldable pub zigzag : ℕ → ℕ
zigzag x = if is_neg x then 2 ^ 64 - 1 - x * 2 % 2 ^ 64 else x * 2 % 2 ^ 64

unfoldable pub put_varint : ℕ → List ℕ
unfolding put_uvarint zigzag
put_varint x = put_uvarint (zigzag x)

-- The loop of Uvarint at index `i`, with the value `x` read so far and `m` for `1 << s`. The bits
-- of `x` lie below `m`, so that `x | b << s` is a sum. `none` is a count of 0 (the bytes end) or
-- below 0 (an eleventh byte, or a tenth above 1).
unfoldable pub uvarint_loop : ℕ → ℕ → ℕ → List ℕ → Option (ℕ × List ℕ)
uvarint_loop i x m [] = none
uvarint_loop i x m (b ∷ bs) =
    let more = uvarint_loop (i + 1) (x + b % 128 * m) (m * 128) bs in
    if i == 10
    then none
    else if ltb b 128
    then (if i == 9 && ltb 1 b then none else some (x + b * m, bs))
    else more

-- The value and the bytes behind it.
unfoldable pub uvarint : List ℕ → Option (ℕ × List ℕ)
unfolding uvarint_loop
uvarint bs = uvarint_loop 0 0 1 bs

-- `x := int64(ux >> 1); if ux & 1 != 0 { x = ^x }`
unfoldable pub unzigzag : ℕ → ℕ
unzigzag u = if u % 2 == 1 then 2 ^ 64 - 1 - u / 2 else u / 2

unfoldable pub varint : List ℕ → Option (ℕ × List ℕ)
unfolding uvarint unzigzag
varint bs = elim (uvarint bs) [ none ↦ none | some (u, rest) ↦ some (unzigzag u, rest) ]
