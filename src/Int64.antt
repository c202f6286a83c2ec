-- ===== src/Int64.antt =====
-- Go's int64 as a bit pattern below 2^64: the wrapping sum and the signed order.
pub mod Laws
use go_binsync.Prelude.{ℕ, ◌+◌, ◌%◌, ◌^◌, Bool, leb, ltb}

unfoldable pub add64 : ℕ → ℕ → ℕ
add64 a b = (a + b) % 2 ^ 64

-- The pattern with its sign bit turned over, which puts the values in the order of the numbers.
abbrev flipped : ℕ → ℕ
flipped a = (a + 2 ^ 63) % 2 ^ 64

-- a < b, a <= b.
unfoldable pub lt64 : ℕ → ℕ → Bool
lt64 a b = ltb (flipped a) (flipped b)

unfoldable pub le64 : ℕ → ℕ → Bool
le64 a b = leb (flipped a) (flipped b)
