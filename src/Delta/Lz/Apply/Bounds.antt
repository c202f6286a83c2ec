-- ===== src/Delta/Lz/Apply/Bounds.antt =====
-- Apply on any streams, well formed or not: it ends, it writes the output in full where it
-- succeeds, and the one way in which it panics.
use go_binsync.Prelude.{
  ℕ, zero, suc, ◌+◌, ◌%◌, ◌^◌, ◌≤◌, ◌<◌, ◌≡◌, ◌≢◌, refl, ◌∙◌, List, [], ok, err, panic, stuck,
  Result, ◌>>=◌, length, take, slice, arith, length-take_le, length-append, length-slice,
}
use mathlib.Core.Path.{subst}
use native.Mathlib.Decide.{ℕ_discrete}
use go_binsync.Delta.Lz.Apply.Ops.{op_bytes, read_op-op_bytes}
use go_binsync.Delta.Errors.{Error}
use go_binsync.Delta.Lz.Apply.{
  State, Op, read_op, run_literals, source_slice, copy_refused, copy_at, run_copy, finish_op,
  run_op, round, apply_loop, apply,
}

run_literals-left :
    (op : Op) (s t : State)
    → run_literals op s ≡ ok t
    → (t.left + op.nlit ≡ s.left) × (length t.out ≡ length s.out + op.nlit)
unfolding run_literals
run_literals-left op s t e =
    ground (arith, length-append s.out (take op.nlit s.lit), length-take_le op.nlit s.lit)

copy_at-left :
    (src : List ℕ) (op : Op) (s t : State) (lo hi : ℕ)
    → s.left < 2 ^ 62
    → hi ≡ (lo + op.ncopy) % 2 ^ 64
    → copy_at src op s lo hi ≡ ok t
    → (t.left + op.ncopy ≡ s.left) × (length t.out ≡ length s.out + op.ncopy)
unfolding copy_at copy_refused source_slice
copy_at-left src op s t lo hi h eq e =
    ground (arith, length-append s.out (slice lo hi src), length-slice lo hi src)

run_copy-left :
    (src : List ℕ) (op : Op) (s t : State)
    → s.left < 2 ^ 62
    → run_copy src op s ≡ ok t
    → (t.left + op.ncopy ≡ s.left) × (length t.out ≡ length s.out + op.ncopy)
unfolding run_copy
run_copy-left src op s t h e = copy_at-left src op s t _ _ h refl e

finish_op-left :
    (src : List ℕ) (op : Op) (s t : State)
    → s.left < 2 ^ 62
    → finish_op src op s ≡ ok t
    → (t.left + op.ncopy ≡ s.left)
      × (length t.out ≡ length s.out + op.ncopy)
      × (0 < op.nlit + op.ncopy)
unfolding finish_op
finish_op-left src op s t h e = ground (arith, run_copy-left src op s t h)

-- A round that succeeds writes a byte at least.
record Writes (s t : State) : Type 0 where
  fewer : t.left < s.left
  same : length t.out + t.left ≡ length s.out + s.left

run_op-Writes :
    (src : List ℕ) (op : Op) (s t : State) → s.left < 2 ^ 62 → run_op src op s ≡ ok t → Writes s t
unfolding run_op
run_op-Writes src op s t h e = go (run_literals op s) refl e
  where
    go :
        (r : Result Error State)
        → run_literals op s ≡ r
        → (r >>= finish_op src op) ≡ ok t
        → Writes s t
    go (ok m) p q =
        let a = run_literals-left op s m p in
        let b = finish_op-left src op m t (omega (arith, a.0)) q in
        record { fewer = omega (arith, a.0, b.0, b.2); same = omega (arith, a.0, a.1, b.0, b.1) }
    go (err x) p q = cc
    go panic p q = cc
    go stuck p q = cc

round-Writes : (src : List ℕ) (s t : State) → s.left < 2 ^ 62 → round src s ≡ ok t → Writes s t
unfolding round
round-Writes src s t h e = go (read_op s.ctrl) e
  where
    go :
        (r : Result Error (Op × List ℕ))
        → (r >>= λ p. run_op src p.0 (record s { ctrl = p.1 })) ≡ ok t
        → Writes s t
    go (ok (op, ctrl)) q =
        let w = run_op-Writes src op (record s { ctrl = ctrl }) t h q in
        record { fewer = w.fewer; same = w.same }
    go (err x) q = cc
    go panic q = cc
    go stuck q = cc

round-ne-stuck : (src : List ℕ) (s : State) → round src s ≢ stuck
unfolding round run_op read_op finish_op run_copy copy_at source_slice run_literals
round-ne-stuck src s = ground arith

-- An outcome of a run for `n` bytes of output: all of them are written, or it is an error value or
-- a panic. It is never out of fuel.
abbrev pub IsComplete : ℕ → Result Error State → Type 0
IsComplete n (ok t) = (length t.out ≡ n) × (t.left ≡ 0)
IsComplete n (err e) = Unit
IsComplete n panic = Unit
IsComplete n stuck = ⊥

apply_loop_more :
    (n : ℕ) (src : List ℕ) (s : State)
    → s.left ≢ 0
    → apply_loop (suc n) src s ≡ (round src s >>= apply_loop n src)
unfolding apply_loop
apply_loop_more n src s h = ground arith

apply_loop_end : (n : ℕ) (src : List ℕ) (s : State) → s.left ≡ 0 → apply_loop n src s ≡ ok s
unfolding apply_loop
apply_loop_end zero src s h = ground arith
apply_loop_end (suc n) src s h = ground arith

after_round-IsComplete :
    (n : ℕ) (src : List ℕ) (s : State) (r : Result Error State)
    → s.left ≤ suc n
    → s.left < 2 ^ 62
    → round src s ≡ r
    → ((t : State)
        → t.left ≤ n
        → t.left < 2 ^ 62
        → IsComplete (length t.out + t.left) (apply_loop n src t))
    → IsComplete (length s.out + s.left) (r >>= apply_loop n src)
after_round-IsComplete n src s (ok t) h k e ih =
    let w = round-Writes src s t k e in
    subst (λ m. IsComplete m (apply_loop n src t)) w.same
      (ih t (omega (arith, w.fewer)) (omega (arith, w.fewer)))
after_round-IsComplete n src s (err x) h k e ih = tt
after_round-IsComplete n src s panic h k e ih = tt
after_round-IsComplete n src s stuck h k e ih = absurd (round-ne-stuck src s e)

apply_loop-IsComplete :
    (n : ℕ) (src : List ℕ) (s : State)
    → s.left ≤ n
    → s.left < 2 ^ 62
    → IsComplete (length s.out + s.left) (apply_loop n src s)
apply_loop-IsComplete zero src s h k = rw (apply_loop_end zero src s (omega arith)) (omega arith)
apply_loop-IsComplete (suc n) src s h k = elim (ℕ_discrete s.left 0) [
  | yes end ↦ rw (apply_loop_end (suc n) src s end) (omega arith)
  | no more ↦
      rw (apply_loop_more n src s more)
        (after_round-IsComplete n src s (round src s) h k refl (apply_loop-IsComplete n src))
]

-- For any source and any streams, Apply asked for `n` bytes, `n` below 2^62, ends without running
-- out of rounds, and where it returns no error it has written `n` bytes.
pub apply-IsComplete :
    (src ctrl lit : List ℕ) (n : ℕ) → n < 2 ^ 62 → IsComplete n (apply src ctrl lit n)
unfolding apply
apply-IsComplete src ctrl lit n h =
    let s : State = record { ctrl = ctrl; lit = lit; cursor = 0; out = []; left = n } in
    subst (λ m. IsComplete m (apply_loop n src s)) {x = 0 + n} {y = n} (omega arith)
      (apply_loop-IsComplete n src s (omega arith) h)

-- What a corrupt patch may hold: a first op that copies, from a cursor so far out that the sum with
-- the copy's length passes the largest int64. The sum is then below 0, and below every length.
pub apply_panics :
    (src rest lit : List ℕ) (ncopy seek n : ℕ)
    → 0 < ncopy
    → ncopy ≤ n
    → n < 2 ^ 62
    → seek < 2 ^ 63
    → 2 ^ 63 ≤ seek + ncopy
    → apply src (op_bytes 0 ncopy seek rest) lit n ≡ panic
apply_panics src rest lit ncopy seek zero pos le hn hs over = absurd (omega arith)
apply_panics src rest lit ncopy seek (suc n) pos le hn hs over =
    unfold apply in
    apply_loop_more n src _ (omega arith)
    ∙ (unfold round in
        rw (read_op-op_bytes 0 ncopy seek rest (omega arith) (omega arith) (omega arith)) (
          unfold run_op finish_op run_copy copy_at copy_refused source_slice run_literals in
          ground arith))
