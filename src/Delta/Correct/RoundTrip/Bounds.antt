-- ===== src/Delta/Correct/RoundTrip/Bounds.antt =====
-- How far encodeCorrection's loops go, and how long the streams of its regions are.
use go_binsync.Prelude.{ℕ, zero, suc, ◌+◌, ◌/◌, ◌≤◌, List, length, arith}
use go_binsync.Varint.{put_uvarint_loop, put_uvarint}
use go_binsync.Delta.Correct.Encode.{merge_gap, slack_at, gap_end, grow}

pub gap_end-le : (fuel : ℕ) (pred want : List ℕ) (e k : ℕ) → k ≤ gap_end fuel pred want e k
unfolding gap_end
gap_end-le zero pred want e k = omega arith
gap_end-le (suc fuel) pred want e k = ground (arith, gap_end-le fuel pred want e (k + 1))

-- A region that starts inside the file ends inside it, and not before its first byte.
pub grow_bounds :
    (fuel : ℕ) (pred want : List ℕ) (e : ℕ)
    → e ≤ length want
    → (e ≤ grow fuel pred want e) × (grow fuel pred want e ≤ length want)
unfolding grow
grow_bounds zero pred want e h = omega arith
grow_bounds (suc fuel) pred want e h = ground (
  arith,
  gap_end-le merge_gap pred want e e,
  grow_bounds fuel pred want (gap_end merge_gap pred want e e + 1),
)

pub slack_fits : (e n : ℕ) → e ≤ n → e + slack_at e n ≤ n
unfolding slack_at
slack_fits e n h = omega arith

length-put_uvarint_loop : (k x : ℕ) → length (put_uvarint_loop k x) ≤ k + 1
unfolding put_uvarint_loop
length-put_uvarint_loop zero x = omega arith
length-put_uvarint_loop (suc k) x = ground (arith, length-put_uvarint_loop k (x / 128))

pub length-put_uvarint : (x : ℕ) → length (put_uvarint x) ≤ 10
unfolding put_uvarint
length-put_uvarint x = omega (arith, length-put_uvarint_loop 9 x)

pub put_uvarint-nonempty : (x : ℕ) → 1 ≤ length (put_uvarint x)
unfolding put_uvarint put_uvarint_loop
put_uvarint-nonempty x = ground arith
