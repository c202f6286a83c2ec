-- ===== src/Delta/Buf/Laws.antt =====
-- What the writes of a `wbuf` put down, the reads of an `rbuf` bring back; and a failure stays.
use go_binsync.Prelude.{
  ℕ, ◌≤◌, ◌≡◌, some, List, [], ◌++◌, length, arith, length-append, take-append, drop-append,
  append_assoc,
}
use go_binsync.Varint.{IsU64, put_uvarint, put_varint}
use go_binsync.Varint.Laws.{uvarint-put_uvarint, varint-put_varint}
use go_binsync.Delta.Errors.{Error}
use go_binsync.Delta.Buf.{Rbuf, reading, fail, u, s, un, take_bytes, bytes}
use go_binsync.Delta.Buf.Put

pub u-put :
    (v : ℕ) (rest : List ℕ) → IsU64 v → u (reading (put_uvarint v ++ rest)) ≡ (v, reading rest)
unfolding u
u-put v rest h = rw (uvarint-put_uvarint v rest h)

pub s-put :
    (v : ℕ) (rest : List ℕ) → IsU64 v → s (reading (put_varint v ++ rest)) ≡ (v, reading rest)
unfolding s
s-put v rest h = rw (varint-put_varint v rest h)

pub un-put :
    (v most : ℕ) (rest : List ℕ)
    → IsU64 v
    → v ≤ most
    → un (reading (put_uvarint v ++ rest)) most ≡ (v, reading rest)
unfolding un
un-put v most rest h k = rw (uvarint-put_uvarint v rest h) (ground arith)

pub take_bytes-append :
    (b rest : List ℕ) → take_bytes (reading (b ++ rest)) (length b) ≡ (b, reading rest)
unfolding take_bytes
take_bytes-append b rest =
    ground
      (arith, length-append b rest, take-append b rest (length b), drop-append b rest (length b))

-- rbuf.bytes reads back what wbuf.bytes wrote, and leaves what follows it.
pub bytes-put :
    (b rest : List ℕ)
    → IsU64 (length b)
    → bytes (reading (Put.bytes [] b ++ rest)) ≡ (b, reading rest)
unfolding bytes Put.bytes
bytes-put b rest h = rw (append_assoc, u-put (length b) (b ++ rest) h) (take_bytes-append b rest)

-- A failure stays, whatever is read behind it, and `done` reports the first one.
pub un-error :
    (b : List ℕ) (e : Error) (most : ℕ)
    → (un (record { b = b; error = some e }) most).1.error ≡ some e
unfolding un fail
un-error b e most = ground arith

-- What `un` hands out is in range, on every input.
pub un-le : (r : Rbuf) (most : ℕ) → (un r most).0 ≤ most
unfolding un
un-le r most = ground arith
