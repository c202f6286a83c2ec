-- ===== src/Delta/Plain/Runs/Bounds.antt =====
-- diffReader on any stream: a region is gone through to its end.
use go_binsync.Prelude.{
  ℕ, zero, suc, ◌+◌, ◌-◌, ◌^◌, ◌≤◌, ◌<◌, ◌≡◌, refl, ap, ◌++◌, ◌⊎◌, inl, inr, Bool-cases, if_both,
  min, Option, none, some, List, [], ◌∷◌, Result, Outcome, Outcome-bind, length, take, drop, slice,
  overwrite, ltb, ◌==◌, length-take, length-drop, length-slice, length-append, length-take_le,
  arith,
}
use mathlib.Core.Path.{subst}
use go_binsync.Int64.{add64, lt64}
use go_binsync.Int64.Laws.{add64-eq, lt64-lt, lt64-le, lt64-positive}
use go_binsync.Delta.Errors.{Error}
use go_binsync.Delta.Buf
use go_binsync.Delta.Buf.{Rbuf}
use go_binsync.Delta.Buf.Bounds.{un-rest, take_bytes-le}
use go_binsync.Delta.Plain.Runs.Steps.{advance-logical}
use go_binsync.Delta.Plain.Runs.{
  DiffReader, settled, advance, sums, if_none, add_loop, arrived, add,
}

-- A reader of which the next run is far off, or less than `n` bytes are left.
abbrev pub Near : ℕ → DiffReader → Type 0
Near n d = (d.next < 2 ^ 64) × ((d.next ≡ 2 ^ 62) ⊎ (length d.r.b < n))

settled-Near :
    (n next : ℕ) (d : DiffReader) (r : Rbuf) (pend : List ℕ) (e : Option Error)
    → next < 2 ^ 64
    → length r.b < n
    → Near n (settled d r next pend e)
settled-Near n next d r pend none h k = (h, inr k)
settled-Near n next d r pend (some e) h k = (omega arith, inl refl)

add64-lt : (a b : ℕ) → add64 a b < 2 ^ 64
unfolding add64
add64-lt a b = omega arith

pub advance-Near : (d : DiffReader) (n : ℕ) → length d.r.b ≤ n → Near n (advance d)
unfolding advance
advance-Near d n h = elim (Bool-cases (length d.r.b == 0)) [
  | inl empty ↦ rw empty (omega arith, inl refl)
  | inr more ↦ rw more (settled-Near n _ d _ _ _ (add64-lt _ _) (read (ground arith)))
]
  where
    read :
        1 ≤ length d.r.b
        → let (gap, r1) = Buf.un d.r d.max in
          let (m, r2) = Buf.un r1 d.max in length (Buf.take_bytes r2 m).1.b < n
    read some_left =
        let (gap, r1) = Buf.un d.r d.max in
        let (m, r2) = Buf.un r1 d.max in
        grind (arith, un-rest d.r d.max, un-rest r1 d.max, take_bytes-le r2 m)

length-sums : (xs ys : List ℕ) → length xs ≡ length ys → length (sums xs ys) ≡ length xs
unfolding sums
length-sums [] ys h = refl
length-sums (x ∷ xs) [] h = absurd (omega arith)
length-sums (x ∷ xs) (y ∷ ys) h = ap suc (length-sums xs ys (omega arith))

length-overwrite :
    (at : ℕ) (ys xs : List ℕ) → at + length ys ≤ length xs → length (overwrite at ys xs) ≡ length xs
length-overwrite at ys xs h = omega (
  arith,
  length-append (take at xs) (ys ++ drop (at + length ys) xs),
  length-append ys (drop (at + length ys) xs),
  length-take_le at xs (omega arith),
  length-drop (at + length ys) xs,
)

-- Behind a region.
abbrev IsAdded : ℕ → DiffReader × List ℕ → Type 0
IsAdded n (d, dst) = (d.next < 2 ^ 64) × (length dst ≡ n)

-- What a round writes stays within the region.
length-round :
    (d : DiffReader) (end_of : ℕ) (dst : List ℕ)
    → d.logical ≤ d.next
    → d.next < end_of
    → end_of ≡ d.logical + length dst
    → let n = min (length d.pend) (end_of - d.next) in
      let base = d.next - d.logical in
      length (overwrite base (sums (slice base (base + n) dst) (take n d.pend)) dst) ≡ length dst
length-round d end_of dst h k e =
    let n = min (length d.pend) (end_of - d.next) in
    let base = d.next - d.logical in
    let region = length-slice base (base + n) dst (omega arith) (omega arith) in
    let added =
      length-sums (slice base (base + n) dst) (take n d.pend)
        (omega (arith, region, length-take n d.pend)) in
    length-overwrite base _ dst (omega (arith, added, region))

if_none-Outcome :
    (P : DiffReader × List ℕ → Type 0) (e : Option Error) (m : Result Error (DiffReader × List ℕ))
    → Outcome P m
    → Outcome P (if_none e m)
if_none-Outcome P none m h = h
if_none-Outcome P (some e) m h = tt

-- A round, where what follows it is right.
round-Outcome :
    (n : ℕ) (d : DiffReader) (end_of : ℕ) (dst : List ℕ)
    → d.next < 2 ^ 64
    → end_of ≤ 2 ^ 62
    → end_of ≡ d.logical + length dst
    → (d.next < end_of
        → (dst' : List ℕ) → length dst' ≡ length dst
        → Outcome
            (IsAdded (length dst))
            (add_loop n (advance (record d { next = add64 d.next (length d.pend) })) end_of dst'))
    → Outcome (IsAdded (length dst)) (add_loop (suc n) d end_of dst)
unfolding add_loop
round-Outcome n d end_of dst next_lt small e on = elim (Bool-cases (lt64 d.next end_of)) [
  | inr stop ↦ rw stop (next_lt, refl)
  | inl more ↦ rw more (
      if_none-Outcome (IsAdded (length dst)) d.r.error _
        (elim (Bool-cases (lt64 d.next d.logical)) [
          | inl behind ↦ rw behind tt
          | inr ahead ↦
              let k = min (length d.pend) (end_of - d.next) in
              let base = d.next - d.logical in
              let dst' = overwrite base (sums (slice base (base + k) dst) (take k d.pend)) dst in
              let from_logical = lt64-le d.next d.logical next_lt (omega arith) ahead in
              let before_end = lt64-lt d.next end_of next_lt (omega arith) more in
              let positive = lt64-positive d.next d.logical next_lt (omega arith) ahead in
              let inside : d.next < end_of = ground (arith, before_end, positive) in
              let same : length dst' ≡ length dst =
                length-round d end_of dst from_logical inside e in
              rw ahead (
                if_both (Outcome (IsAdded (length dst))) (ltb k (length d.pend))
                  (add64-lt _ _, same) (on inside dst' same))
        ]))
]

add_loop-Outcome :
    (n : ℕ) (d : DiffReader) (end_of : ℕ) (dst : List ℕ)
    → Near n d
    → end_of ≤ 2 ^ 62
    → end_of ≡ d.logical + length dst
    → Outcome (IsAdded (length dst)) (add_loop (suc n) d end_of dst)
add_loop-Outcome zero d end_of dst (next_lt, near) small e =
    round-Outcome zero d end_of dst next_lt small e
      (λ inside dst' same. absurd (ground (arith, near)))
add_loop-Outcome (suc n) d end_of dst (next_lt, near) small e =
    let d' = record d { next = add64 d.next (length d.pend) } in
    round-Outcome (suc n) d end_of dst next_lt small e (λ inside dst' same.
      subst (λ k. Outcome (IsAdded k) (add_loop (suc n) (advance d') end_of dst')) same
        (add_loop-Outcome n (advance d') end_of dst' (advance-Near d' n (ground (arith, near)))
          small (omega (arith, advance-logical d'))))

-- Behind a region, from a reader at `at`.
abbrev pub IsAhead : ℕ → ℕ → DiffReader × List ℕ → Type 0
IsAhead at n (d, dst) = (d.next < 2 ^ 64) × (d.logical ≡ at + n) × (length dst ≡ n)

pub add-Outcome :
    (d : DiffReader) (dst : List ℕ)
    → d.next < 2 ^ 64
    → d.logical + length dst ≤ 2 ^ 62
    → Outcome (IsAhead d.logical (length dst)) (add d dst)
unfolding add
add-Outcome d dst h small =
    let end_of = add64 d.logical (length dst) in
    let ends : end_of ≡ d.logical + length dst = add64-eq d.logical (length dst) (omega arith) in
    Outcome-bind (IsAdded (length dst)) (IsAhead d.logical (length dst))
      (add_loop (length d.r.b + length d.pend + 22) d end_of dst) (arrived end_of)
      (let fuel : length d.r.b + length d.pend + 22 ≡ suc (length d.r.b + length d.pend + 21) =
          omega arith in
        rw fuel (
          add_loop-Outcome (length d.r.b + length d.pend + 21) d end_of dst (h, inr (omega arith))
            (omega arith) ends))
      (λ r p. (p.0, ends, p.1))
