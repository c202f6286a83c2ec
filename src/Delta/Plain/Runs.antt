-- ===== src/Delta/Plain/Runs.antt =====
-- diffWriter and diffReader of delta/plain.go: the difference stream, as runs of bytes between gaps.
-- Positions in it are int64s; the writer's are sums of lengths of files.
pub mod Steps
pub mod RoundTrip
pub mod Bounds
use go_binsync.Prelude.{
  ℕ, zero, suc, ◌+◌, ◌-◌, ◌%◌, ◌^◌, min, Bool, ◌&&◌, List, [], ◌∷◌, ◌++◌, Option, none, some,
  Result, ok, err, stuck, ◌>>=◌, length, take, drop, slice, overwrite, ltb, ◌==◌, if◌then◌else◌,
}
use go_binsync.Int64.{add64, lt64}
use go_binsync.Varint.{put_uvarint}
use go_binsync.Delta.Errors.{Error, run_behind, run_left}
use go_binsync.Delta.Buf
use go_binsync.Delta.Buf.{Rbuf, reading}
use go_binsync.Delta.Buf.Put
use go_binsync.Delta.Buf.Put.{Wbuf}

abbrev pub diff_merge_gap : ℕ
diff_merge_gap = 6

pub record DiffWriter : Type 0 where
  pub w : Wbuf
  pub logical : ℕ
  pub last_end : ℕ

-- `for k < len(new) && k-e < diffMergeGap && new[k] == old[k]`, from `e` on: how far `k` gets. The
-- first argument is the gap that is left.
unfoldable pub equal_bytes : ℕ → List ℕ → List ℕ → ℕ
equal_bytes zero xs ys = 0
equal_bytes (suc n) [] ys = 0
equal_bytes (suc n) (x ∷ xs) [] = 0
equal_bytes (suc n) (x ∷ xs) (y ∷ ys) =
    let more = equal_bytes n xs ys in if x == y then suc more else 0

-- The loop over `e`: how far the run goes on, where `xs` and `ys` are what is left of both from `e` on.
unfoldable pub run_length : ℕ → List ℕ → List ℕ → ℕ
unfolding equal_bytes
run_length zero xs ys = 0
run_length (suc n) xs ys =
    let k = equal_bytes diff_merge_gap xs ys in
    let more = (k + 1) + run_length n (drop (k + 1) xs) (drop (k + 1) ys) in
    if ltb k diff_merge_gap && ltb k (length xs) then more else 0

-- `new[k] - old[k]` of bytes.
unfoldable pub differences : List ℕ → List ℕ → List ℕ
differences [] ys = []
differences (x ∷ xs) [] = []
differences (x ∷ xs) (y ∷ ys) = (x + 256 - y) % 256 ∷ differences xs ys

-- One run of `n` bytes at the position `at`.
unfoldable pub put_run : DiffWriter → ℕ → ℕ → List ℕ → List ℕ → DiffWriter
unfolding Put.u differences
put_run d at n xs ys = record d {
  w = Put.u (Put.u d.w (at - d.last_end)) n ++ differences (take n xs) (take n ys);
  last_end = at + n;
}

-- `for i := 0; i < len(new)`: `xs` and `ys` are what is left of both, and `at` is d.logical + i. Each
-- round moves on, so `len(new)` rounds are enough.
unfoldable pub write_loop : ℕ → DiffWriter → ℕ → List ℕ → List ℕ → DiffWriter
unfolding put_run run_length
write_loop zero d at xs ys = d
write_loop (suc fuel) d at [] ys = d
write_loop (suc fuel) d at (x ∷ xs) [] = d
write_loop (suc fuel) d at (x ∷ xs) (y ∷ ys) =
    let n = suc (run_length (length xs) xs ys) in
    let same = write_loop fuel d (at + 1) xs ys in
    let run =
      write_loop fuel (put_run d at n (x ∷ xs) (y ∷ ys)) (at + n) (drop n (x ∷ xs))
        (drop n (y ∷ ys)) in
    if x == y then same else run

unfoldable pub write : DiffWriter → List ℕ → List ℕ → DiffWriter
unfolding write_loop
write d new old =
    let d' = write_loop (length new) d d.logical new old in
    record d' { logical = d.logical + length new }

pub record DiffReader : Type 0 where
  pub r : Rbuf
  pub logical : ℕ
  pub next : ℕ
  pub pend : List ℕ
  pub max : ℕ

-- No run is left: `1 << 62`.
abbrev pub nowhere : ℕ
nowhere = 2 ^ 62

abbrev pub settled : DiffReader → Rbuf → ℕ → List ℕ → Option Error → DiffReader
settled d r next pend none = record d { r = r; next = next; pend = pend }
settled d r next pend (some e) = record d { r = r; next = nowhere; pend = [] }

unfoldable pub advance : DiffReader → DiffReader
advance d =
    let (gap, r1) = Buf.un d.r d.max in
    let (n, r2) = Buf.un r1 d.max in
    let (pend, r3) = Buf.take_bytes r2 n in
    if length d.r.b == 0
    then record d { pend = []; next = nowhere }
    else settled d r3 (add64 d.next gap) pend r3.error

unfoldable pub new_diff_reader : List ℕ → ℕ → DiffReader
unfolding advance
new_diff_reader b max =
    advance (record { r = reading b; logical = 0; next = 0; pend = []; max = max })

-- `dst[base+i] += d.pend[i]` of bytes.
unfoldable pub sums : List ℕ → List ℕ → List ℕ
sums [] ys = []
sums (x ∷ xs) [] = []
sums (x ∷ xs) (y ∷ ys) = (x + y) % 256 ∷ sums xs ys

abbrev pub if_none :
    Option Error → Result Error (DiffReader × List ℕ) → Result Error (DiffReader × List ℕ)
if_none none m = m
if_none (some e) m = err e

-- `for d.next < end`, over the region `dst`. Each round but the last uses up bytes of the stream or of
-- the run that is read ahead.
unfoldable pub add_loop : ℕ → DiffReader → ℕ → List ℕ → Result Error (DiffReader × List ℕ)
add_loop zero d end_of dst = stuck
add_loop (suc fuel) d end_of dst =
    let n = min (length d.pend) (end_of - d.next) in
    let base = d.next - d.logical in
    let dst' = overwrite base (sums (slice base (base + n) dst) (take n d.pend)) dst in
    let straddles = record d { pend = drop n d.pend; next = add64 d.next n } in
    let more =
      add_loop fuel (advance (record d { next = add64 d.next (length d.pend) })) end_of dst' in
    if lt64 d.next end_of
    then if_none d.r.error (
        if lt64 d.next d.logical
        then err run_behind
        else if ltb n (length d.pend)
        then ok (straddles, dst')
        else more)
    else ok (d, dst)

abbrev pub arrived : ℕ → DiffReader × List ℕ → Result Error (DiffReader × List ℕ)
arrived end_of (d, dst) = ok (record d { logical = end_of }, dst)

-- The rounds are fewer than the bytes that are left, with those of the run read ahead and its two
-- numbers, of at most ten bytes each.
unfoldable pub add : DiffReader → List ℕ → Result Error (DiffReader × List ℕ)
unfolding add_loop
add d dst =
    let end_of = add64 d.logical (length dst) in
    add_loop (length d.r.b + length d.pend + 22) d end_of dst >>= arrived end_of

unfoldable pub done : DiffReader → Option Error
done d = elim d.r.error [
  | some e ↦ some e
  | none ↦ if length d.r.b == 0 && length d.pend == 0 then none else some run_left
]
