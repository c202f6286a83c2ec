-- ===== src/Varint/Laws.antt =====
-- What was put is read back, and a read takes bytes away.
use go_binsync.Prelude.{
  ℕ, zero, suc, ◌+◌, ◌*◌, ◌/◌, ◌%◌, ◌^◌, ◌<◌, ◌≡◌, refl, ap, some, List, ◌++◌, arith,
}
use go_binsync.Varint.{
  IsU64, put_uvarint_loop, put_uvarint, zigzag, put_varint, uvarint_loop, uvarint, unzigzag, varint,
}
use native.Mathlib.Nat.{div-add-mod}

split_group : (x m : ℕ) → x * m ≡ x % 128 * m + x / 128 * (m * 128)
split_group x m = omega (arith, ap (λ (t : ℕ). t * m) (div-add-mod x 128))

uvarint_loop-put :
    (k i x acc m : ℕ) (rest : List ℕ)
    → k + i ≡ 9
    → x < 2 * 128 ^ k
    → uvarint_loop i acc m (put_uvarint_loop k x ++ rest) ≡ some (acc + x * m, rest)
unfolding uvarint_loop put_uvarint_loop
uvarint_loop-put zero i x acc m rest e h = ground arith
uvarint_loop-put (suc k) i x acc m rest e h = ground (
  arith,
  split_group x m,
  uvarint_loop-put k (i + 1) (x / 128) (acc + x % 128 * m) (m * 128) rest (omega arith)
      (omega arith),
)

pub uvarint-put_uvarint :
    (x : ℕ) (rest : List ℕ) → IsU64 x → uvarint (put_uvarint x ++ rest) ≡ some (x, rest)
unfolding uvarint put_uvarint
uvarint-put_uvarint x rest h = ground (arith, uvarint_loop-put 9 0 x 0 1 rest refl)

pub unzigzag-zigzag : (x : ℕ) → IsU64 x → unzigzag (zigzag x) ≡ x
unfolding unzigzag zigzag
unzigzag-zigzag x h = ground arith

zigzag-IsU64 : (x : ℕ) → IsU64 (zigzag x)
unfolding zigzag
zigzag-IsU64 x = ground arith

pub varint-put_varint :
    (x : ℕ) (rest : List ℕ) → IsU64 x → varint (put_varint x ++ rest) ≡ some (x, rest)
varint-put_varint x rest h =
    unfold varint put_varint in
    ground (arith, uvarint-put_uvarint (zigzag x) rest (zigzag-IsU64 x), unzigzag-zigzag x h)
