-- ===== src/Delta/Lz/Apply.antt =====
-- Reader.Apply of delta/internal/lz/lz.go. The output slice is what has been written of it, `out`,
-- and the count of the bytes still to write, `left`. `cursor` is an int64, kept as its bit pattern,
-- so that `cursor += seek` and `cursor + int64(ncopy)` wrap as they do in Go.
pub mod Ops
pub mod Bounds
use go_binsync.Prelude.{
  ℕ, zero, suc, ◌+◌, ◌-◌, ◌%◌, ◌^◌, Bool, ◌&&◌, ◌||◌, not, List, [], ◌++◌, Option, none, some,
  Result, ok, err, panic, stuck, ◌>>=◌, or_err, length, take, drop, slice, ltb, leb, ◌==◌,
  if◌then◌else◌,
}
use go_binsync.Varint.{is_neg, uvarint, varint}
use go_binsync.Delta.Errors.{
  Error, no_literal_count, no_copy_count, no_seek, too_many_literals, seek_without_copy, empty_op,
  copy_out_of_range,
}

pub record State : Type 0 where
  pub ctrl : List ℕ
  pub lit : List ℕ
  pub cursor : ℕ
  pub out : List ℕ
  pub left : ℕ

-- One (literal count, copy count, seek) triple.
pub record Op : Type 0 where
  pub nlit : ℕ
  pub ncopy : ℕ
  pub seek : ℕ

unfoldable pub read_op : List ℕ → Result Error (Op × List ℕ)
read_op ctrl = do
  (nlit, c1) ← or_err (uvarint ctrl) no_literal_count
  (ncopy, c2) ← or_err (uvarint c1) no_copy_count
  (seek, c3) ← or_err (varint c2) no_seek
  ok (record { nlit = nlit; ncopy = ncopy; seek = seek }, c3)

-- The literals of an op, guards included.
unfoldable pub run_literals : Op → State → Result Error State
run_literals op s =
    if ltb s.left op.nlit || ltb (length s.lit) op.nlit
    then err too_many_literals
    else ok (record s {
      out = s.out ++ take op.nlit s.lit;
      lit = drop op.nlit s.lit;
      left = s.left - op.nlit;
    })

-- `src[cursor : cursor+int64(ncopy)]` panics on a bound below 0 and on bounds that cross.
unfoldable pub source_slice : List ℕ → ℕ → ℕ → Result Error (List ℕ)
source_slice src lo hi = if is_neg lo || is_neg hi || ltb hi lo then panic else ok (slice lo hi src)

-- `cursor < 0 || ncopy > uint64(len(out)-p) || cursor+int64(ncopy) > int64(len(src))`, for the
-- cursor `lo` and its wrapped sum with `ncopy`, `hi`.
unfoldable pub copy_refused : List ℕ → ℕ → ℕ → ℕ → ℕ → Bool
copy_refused src left lo hi ncopy =
    is_neg lo || ltb left ncopy || (not (is_neg hi) && ltb (length src) hi)

-- The copy of an op, from the cursor `lo` to `hi`.
unfoldable pub copy_at : List ℕ → Op → State → ℕ → ℕ → Result Error State
unfolding copy_refused source_slice
copy_at src op s lo hi =
    if copy_refused src s.left lo hi op.ncopy then err copy_out_of_range else (do
      piece ← source_slice src lo hi
      ok (record s { cursor = hi; out = s.out ++ piece; left = s.left - op.ncopy }))

-- `cursor += seek`, the copy, `cursor += int64(ncopy)`.
unfoldable pub run_copy : List ℕ → Op → State → Result Error State
unfolding copy_at
run_copy src op s =
    let lo = (s.cursor + op.seek) % 2 ^ 64 in copy_at src op s lo ((lo + op.ncopy) % 2 ^ 64)

-- What follows the literals: an op with no copy, or the copy.
unfoldable pub finish_op : List ℕ → Op → State → Result Error State
unfolding run_copy
finish_op src op s =
    if op.ncopy == 0
    then (if not (op.seek == 0)
        then err seek_without_copy
        else if op.nlit == 0
        then err empty_op
        else ok s)
    else run_copy src op s

unfoldable pub run_op : List ℕ → Op → State → Result Error State
unfolding run_literals finish_op
run_op src op s = do s' ← run_literals op s; finish_op src op s'

-- One round of the loop.
unfoldable pub round : List ℕ → State → Result Error State
unfolding read_op run_op
round src s = do (op, ctrl) ← read_op s.ctrl; run_op src op (record s { ctrl = ctrl })

-- `for p < len(out)`.
unfoldable pub apply_loop : ℕ → List ℕ → State → Result Error State
apply_loop zero src s = if s.left == 0 then ok s else stuck
apply_loop (suc fuel) src s =
    let rest = (do s' ← round src s; apply_loop fuel src s') in if s.left == 0 then ok s else rest

-- Apply on a reader with the streams `ctrl` and `lit`, for `n` bytes of output. A round writes a
-- byte at least, so `n` rounds are enough.
unfoldable pub apply : List ℕ → List ℕ → List ℕ → ℕ → Result Error State
unfolding apply_loop round
apply src ctrl lit n =
    apply_loop n src (record { ctrl = ctrl; lit = lit; cursor = 0; out = []; left = n })
