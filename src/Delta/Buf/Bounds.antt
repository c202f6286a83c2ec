-- ===== src/Delta/Buf/Bounds.antt =====
-- What the reads of an `rbuf` leave of it, on any input.
use go_binsync.Prelude.{
  ℕ, ◌+◌, ◌≤◌, ◌<◌, ◌≡◌, refl, ◌⊎◌, inl, inr, Bool-cases, if_both, ◌&&◌, ◌==◌, Option, none, some,
  List, [], ◌∷◌, length, ltb, arith, length-drop,
}
use go_binsync.Varint.{uvarint_loop, uvarint, unzigzag, varint}
use go_binsync.Delta.Errors.{Error, bad_uvarint, bad_varint}
use go_binsync.Delta.Buf.{Rbuf, fail, read_with, u, s, un, take_bytes}

-- A value that is read takes a byte at least.
abbrev IsShorter : List ℕ → Option (ℕ × List ℕ) → Type 0
IsShorter bs none = Unit
IsShorter bs (some (v, rest)) = length rest < length bs

IsShorter-cons :
    (b : ℕ) (bs : List ℕ) (o : Option (ℕ × List ℕ)) → IsShorter bs o → IsShorter (b ∷ bs) o
IsShorter-cons b bs none h = tt
IsShorter-cons b bs (some (v, rest)) h = omega arith

uvarint_loop-IsShorter : (i x m : ℕ) (bs : List ℕ) → IsShorter bs (uvarint_loop i x m bs)
unfolding uvarint_loop
uvarint_loop-IsShorter i x m [] = tt
uvarint_loop-IsShorter i x m (b ∷ bs) = elim (Bool-cases (i == 10)) [
  | inl over ↦ rw over tt
  | inr within ↦ elim (Bool-cases (ltb b 128)) [
    | inl last ↦
        rw (within, last) (if_both (IsShorter (b ∷ bs)) (i == 9 && ltb 1 b) tt (omega arith))
    | inr more ↦ rw (within, more) (IsShorter-cons b bs _ (uvarint_loop-IsShorter (i + 1) _ _ bs))
  ]
]

read_with-rest :
    (r : Rbuf) (e : Error) (o : Option (ℕ × List ℕ))
    → IsShorter r.b o
    → (length (read_with r e o).1.b < length r.b) ⊎ (length (read_with r e o).1.b ≡ 0)
unfolding fail
read_with-rest r e none h = inr refl
read_with-rest r e (some (v, rest)) h = inl h

-- Something is read, or nothing is left.
pub un-rest :
    (r : Rbuf) (most : ℕ) → (length (un r most).1.b < length r.b) ⊎ (length (un r most).1.b ≡ 0)
unfolding un u uvarint fail
un-rest r most =
    let read = read_with r bad_uvarint (uvarint r.b) in
    if_both (λ (p : ℕ × Rbuf). (length p.1.b < length r.b) ⊎ (length p.1.b ≡ 0)) (ltb most read.0)
      (inr refl) (read_with-rest r bad_uvarint (uvarint r.b) (uvarint_loop-IsShorter 0 0 1 r.b))

pub u-rest : (r : Rbuf) → (length (u r).1.b < length r.b) ⊎ (length (u r).1.b ≡ 0)
unfolding u uvarint
u-rest r = read_with-rest r bad_uvarint (uvarint r.b) (uvarint_loop-IsShorter 0 0 1 r.b)

pub s-rest : (r : Rbuf) → (length (s r).1.b < length r.b) ⊎ (length (s r).1.b ≡ 0)
unfolding s varint uvarint
s-rest r =
    read_with-rest r bad_varint (varint r.b)
      (varint-IsShorter (uvarint r.b) (uvarint_loop-IsShorter 0 0 1 r.b))
  where
    varint-IsShorter :
        (o : Option (ℕ × List ℕ))
        → IsShorter r.b o
        → IsShorter r.b (elim o [ none ↦ none | some (u, rest) ↦ some (unzigzag u, rest) ])
    varint-IsShorter none h = tt
    varint-IsShorter (some (u, rest)) h = h

pub take_bytes-le : (r : Rbuf) (n : ℕ) → length (take_bytes r n).1.b ≤ length r.b
unfolding take_bytes fail
take_bytes-le r n = ground (arith, length-drop n r.b)
