-- ===== src/Delta/Buf.antt =====
-- delta/buf.go: the byte buffers in which every table of a patch is written (the child Put) and
-- read (`Rbuf`).
pub mod Put
pub mod Laws
pub mod Bounds
use go_binsync.Prelude.{
  ℕ, ◌≡◌, Option, none, some, Bool, true, false, List, [], ◌∷◌, ◌++◌, Result, ok, err, length, take,
  drop, ltb, if◌then◌else◌,
}
use go_binsync.Varint.{uvarint, varint}
use go_binsync.Delta.Errors.{
  Error, bad_uvarint, bad_varint, above_max, short_byte, short_take, trailing,
}

pub record Rbuf : Type 0 where
  pub b : List ℕ
  pub error : Option Error

abbrev pub first_error : Option Error → Error → Option Error
first_error none e = some e
first_error (some old) e = some old

-- The first failure is kept, and what is left to read is dropped.
unfoldable pub fail : Rbuf → Error → Rbuf
fail r e = record { b = []; error = first_error r.error e }

abbrev pub read_with : Rbuf → Error → Option (ℕ × List ℕ) → ℕ × Rbuf
read_with r e none = (0, fail r e)
read_with r e (some (v, rest)) = (v, record r { b = rest })

-- A method that reads returns its value and the buffer behind it.
unfoldable pub u : Rbuf → ℕ × Rbuf
unfolding fail
u r = read_with r bad_uvarint (uvarint r.b)

unfoldable pub s : Rbuf → ℕ × Rbuf
unfolding fail
s r = read_with r bad_varint (varint r.b)

unfoldable pub un : Rbuf → ℕ → ℕ × Rbuf
unfolding u
un r most = let (v, r') = u r in if ltb most v then (0, fail r' above_max) else (v, r')

abbrev byte_of : Rbuf → List ℕ → ℕ × Rbuf
byte_of r [] = (0, fail r short_byte)
byte_of r (v ∷ rest) = (v, record r { b = rest })

unfoldable pub byte : Rbuf → ℕ × Rbuf
unfolding fail
byte r = byte_of r r.b

unfoldable pub take_bytes : Rbuf → ℕ → List ℕ × Rbuf
unfolding fail
take_bytes r n =
    if ltb (length r.b) n
    then ([], fail r short_take)
    else (take n r.b, record r { b = drop n r.b })

unfoldable pub bytes : Rbuf → List ℕ × Rbuf
unfolding u take_bytes
bytes r = let (n, r') = u r in take_bytes r' n

abbrev done_with : Option Error → List ℕ → Option Error
done_with (some e) b = some e
done_with none [] = none
done_with none (x ∷ b) = some trailing

-- nil is `none`.
unfoldable pub done : Rbuf → Option Error
done r = done_with r.error r.b

-- A buffer over `b` on which nothing has failed.
abbrev pub reading : List ℕ → Rbuf
reading b = record { b = b; error = none }
