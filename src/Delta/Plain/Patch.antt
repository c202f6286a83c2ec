-- ===== src/Delta/Plain/Patch.antt =====
-- plainPatch of delta/plain.go. `out` is what is written so far, out[:npos]; the zeros behind it are
-- left out. The place in the old file is an int64, as a bit pattern.
pub mod Bounds
use go_binsync.Prelude.{
  ℕ, zero, suc, ◌+◌, ◌%◌, ◌||◌, not, List, [], ◌++◌, Option, none, some, Result, ok, err, panic,
  ◌>>=◌, length, take, drop, slice, ltb, ◌==◌, if◌then◌else◌,
}
use go_binsync.Int64.{add64, lt64}
use go_binsync.Varint.{is_neg}
use go_binsync.Delta.Errors.{Error, bad_match, bad_literals, plain_incomplete}
use go_binsync.Delta.Buf
use go_binsync.Delta.Buf.{Rbuf, reading}
use go_binsync.Delta.Correct.Apply.{check}
use go_binsync.Delta.Plain.Runs.{DiffReader, new_diff_reader, add}
use go_binsync.Delta.Plain.Runs

pub record Progress : Type 0 where
  pub ctrl : Rbuf
  pub diff : DiffReader
  pub extra : List ℕ
  pub opos : ℕ
  pub out : List ℕ

-- `old[opos:opos+nd]`, which panics where the sum has passed the largest int64 and is below `opos`.
unfoldable pub old_slice : List ℕ → ℕ → ℕ → Result Error (List ℕ)
old_slice old opos nd = if lt64 (add64 opos nd) opos then panic else ok (slice opos (opos + nd) old)

-- The matched bytes of a triple.
unfoldable pub copy_match : List ℕ → ℕ → ℕ → Progress → Result Error Progress
unfolding old_slice
copy_match old new_len nd p =
    if lt64 new_len (length p.out + nd) || (is_neg p.opos || lt64 (length old) (add64 p.opos nd))
    then err bad_match
    else (do
      region ← old_slice old p.opos nd
      (d, dst) ← add p.diff region
      ok (record p { diff = d; out = p.out ++ dst; opos = add64 p.opos nd }))

-- The literals of a triple, and the seek behind them.
unfoldable pub copy_literals : ℕ → ℕ → ℕ → Progress → Result Error Progress
copy_literals new_len ne seek p =
    if lt64 (length p.extra) ne || lt64 new_len (length p.out + ne)
    then err bad_literals
    else ok (record p {
      out = p.out ++ take ne p.extra;
      extra = drop ne p.extra;
      opos = add64 p.opos seek;
    })

unfoldable pub triple : List ℕ → ℕ → Progress → Result Error Progress
unfolding copy_match copy_literals
triple old new_len p =
    let (nd, c1) = Buf.un p.ctrl new_len in
    let (ne, c2) = Buf.un c1 new_len in
    let (seek, c3) = Buf.s c2 in
    (do
      _ ← check c3.error
      q ← copy_match old new_len nd (record p { ctrl = c3 })
      copy_literals new_len ne seek q)

-- `for i := uint64(0); i < ntriples; i++`
unfoldable pub triples : ℕ → List ℕ → ℕ → Progress → Result Error Progress
unfolding triple
triples zero old new_len p = ok p
triples (suc n) old new_len p = do q ← triple old new_len p; triples n old new_len q

-- The checks behind the last triple.
unfoldable pub finish : ℕ → Progress → Result Error (List ℕ)
finish new_len p = do
  _ ← check (Buf.done p.ctrl)
  _ ← check (Runs.done p.diff)
  if not (length p.out == new_len) || not (length p.extra == 0)
      then err plain_incomplete
      else ok p.out

unfoldable pub plain_patch : List ℕ → List ℕ → ℕ → Result Error (List ℕ)
unfolding triples finish
plain_patch old body new_len =
    let (ntriples, r1) = Buf.un (reading body) (length body) in
    let (ctrl_len, r2) = Buf.un r1 (length body) in
    let (diff_len, r3) = Buf.un r2 (length body) in
    let (extra_len, r4) = Buf.un r3 new_len in
    let (ctrl, r5) = Buf.take_bytes r4 ctrl_len in
    let (diff, r6) = Buf.take_bytes r5 diff_len in
    let (extra, r7) = Buf.take_bytes r6 extra_len in
    (do
      _ ← check (Buf.done r7)
      p ← triples ntriples old new_len (record {
        ctrl = reading ctrl;
        diff = new_diff_reader diff new_len;
        extra = extra;
        opos = 0;
        out = [];
      })
      finish new_len p)
