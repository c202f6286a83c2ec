-- ===== src/Delta/Lz/Apply/Ops.antt =====
-- The bytes of one op, and that they are read back.
use go_binsync.Prelude.{ℕ, List, ◌++◌, ◌≡◌, ok}
use go_binsync.Varint.{IsU64, put_uvarint, put_varint}
use go_binsync.Varint.Laws.{uvarint-put_uvarint, varint-put_varint}
use go_binsync.Delta.Lz.Apply.{read_op}

-- The bytes of one op, before `rest`.
abbrev pub op_bytes : ℕ → ℕ → ℕ → List ℕ → List ℕ
op_bytes nlit ncopy seek rest = put_uvarint nlit ++ (put_uvarint ncopy ++ (put_varint seek ++ rest))

pub read_op-op_bytes :
    (nlit ncopy seek : ℕ) (rest : List ℕ)
    → IsU64 nlit
    → IsU64 ncopy
    → IsU64 seek
    → read_op (op_bytes nlit ncopy seek rest)
      ≡ ok (record { nlit = nlit; ncopy = ncopy; seek = seek }, rest)
unfolding read_op
read_op-op_bytes nlit ncopy seek rest h k l =
    rw (uvarint-put_uvarint nlit (put_uvarint ncopy ++ (put_varint seek ++ rest)) h) (
      rw (uvarint-put_uvarint ncopy (put_varint seek ++ rest) k)
        (rw (varint-put_varint seek rest l)))
