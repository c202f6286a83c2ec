-- ===== src/Delta/Plain/Runs/Steps.antt =====
-- diffReader, one step at a time, on what diffWriter writes.
use go_binsync.Prelude.{
  ℕ, zero, suc, ◌+◌, ◌-◌, ◌%◌, ◌^◌, ◌≤◌, ◌<◌, ◌≡◌, refl, sym, ap, false, min, List, [], ◌∷◌, ◌++◌,
  Option, none, some, length, take, drop, ltb, ◌==◌, inl, inr, Bool-cases, if_both, All, All_take,
  arith, length-append, length-drop, length-take_le, take-length_le, append_assoc, slice-append,
  overwrite-append,
}
use go_binsync.Int64.Laws.{add64-eq, lt64-true, lt64-false}
use go_binsync.Varint.{put_uvarint}
use go_binsync.Delta.Buf.{Rbuf, reading}
use go_binsync.Delta.Errors.{Error}
use go_binsync.Delta.Buf.Laws.{un-put, take_bytes-append}
use go_binsync.Delta.Plain.Runs.{
  DiffReader, equal_bytes, run_length, differences, advance, sums, add_loop, settled,
}

abbrev pub AreBytes : List ℕ → Type 0
AreBytes = All (λ b. b < 256)

equal_bytes-le : (n : ℕ) (xs ys : List ℕ) → equal_bytes n xs ys ≤ length xs
unfolding equal_bytes
equal_bytes-le zero xs ys = omega arith
equal_bytes-le (suc n) [] ys = omega arith
equal_bytes-le (suc n) (x ∷ xs) [] = omega arith
equal_bytes-le (suc n) (x ∷ xs) (y ∷ ys) = ground (arith, equal_bytes-le n xs ys)

pub run_length-le : (n : ℕ) (xs ys : List ℕ) → run_length n xs ys ≤ length xs
unfolding run_length
run_length-le zero xs ys = omega arith
run_length-le (suc n) xs ys =
    let k = equal_bytes 6 xs ys in
    ground (arith, run_length-le n (drop (k + 1) xs) (drop (k + 1) ys), length-drop (k + 1) xs)

pub length-differences :
    (xs ys : List ℕ) → length xs ≡ length ys → length (differences xs ys) ≡ length xs
unfolding differences
length-differences [] ys h = refl
length-differences (x ∷ xs) [] h = absurd (omega arith)
length-differences (x ∷ xs) (y ∷ ys) h = ap suc (length-differences xs ys (omega arith))

sums-differences :
    (xs ys : List ℕ)
    → length xs ≡ length ys
    → AreBytes xs
    → AreBytes ys
    → sums ys (differences xs ys) ≡ xs
unfolding sums differences
sums-differences [] [] h bx by = refl
sums-differences [] (y ∷ ys) h bx by = absurd (omega arith)
sums-differences (x ∷ xs) [] h bx by = absurd (omega arith)
sums-differences (x ∷ xs) (y ∷ ys) h (px, bx) (py, by) =
    let head : (y + (x + 256 - y) % 256) % 256 ≡ x = omega arith in
    rw (head, sums-differences xs ys (omega arith) bx by) refl

-- The reader at the position `base` in front of the stream `s`, which it has not read ahead in.
abbrev pub before : ℕ → ℕ → ℕ → List ℕ → DiffReader
before max logical base s = record {
  r = reading s;
  logical = logical;
  next = base;
  pend = [];
  max = max;
}

advance-pend :
    (max logical base : ℕ) (s p : List ℕ)
    → advance (record (before max logical base s) { pend = p })
      ≡ advance (before max logical base s)
unfolding advance
advance-pend max logical base s p = refl

pub advance-run :
    (max logical base gap : ℕ) (bytes rest : List ℕ)
    → max < 2 ^ 62
    → base + gap ≤ max
    → 1 ≤ length bytes
    → length bytes ≤ max
    → advance (
        before max logical base
          (put_uvarint gap ++ (put_uvarint (length bytes) ++ (bytes ++ rest))))
      ≡ record { r = reading rest; logical = logical; next = base + gap; pend = bytes; max = max }
unfolding advance
advance-run max logical base gap bytes rest small room some_bytes fits =
    let stream = put_uvarint gap ++ (put_uvarint (length bytes) ++ (bytes ++ rest)) in
    let nonempty : (length stream == 0) ≡ false = ground (
      arith,
      length-append (put_uvarint gap) (put_uvarint (length bytes) ++ (bytes ++ rest)),
      length-append (put_uvarint (length bytes)) (bytes ++ rest),
      length-append bytes rest,
    ) in
    rw
      (
        un-put gap max (put_uvarint (length bytes) ++ (bytes ++ rest)) (omega arith) (omega arith),
        un-put (length bytes) max (bytes ++ rest) (omega arith) fits,
        take_bytes-append bytes rest,
        add64-eq base gap (omega arith),
        nonempty,
      )
      refl

-- No run of the stream starts below `bound`, and what is read ahead of it leaves rounds enough.
pub record Later (max bound base : ℕ) (s : List ℕ) : Type 0 where
  pub from_bound : (logical : ℕ) → bound ≤ (advance (before max logical base s)).next
  pub in_range : (logical : ℕ) → (advance (before max logical base s)).next < 2 ^ 63
  pub rounds :
      (logical : ℕ)
      → let d = advance (before max logical base s) in length s ≤ length d.r.b + length d.pend + 21

pub nothing-Later : (max bound base : ℕ) → bound ≤ 2 ^ 62 → Later max bound base []
unfolding advance
nothing-Later max bound base h = record {
  from_bound = λ l. omega arith;
  in_range = λ l. omega arith;
  rounds = λ l. omega arith;
}

-- One run that covers the next bytes of the region: `done` is what is put back, `ys` the rest.
pub add_loop-run :
    (fuel max logical at : ℕ) (rest done xs ys : List ℕ) (end_of : ℕ)
    → length xs ≤ length ys
    → 1 ≤ length xs
    → AreBytes xs
    → AreBytes ys
    → logical + length done ≡ at
    → end_of ≡ at + length ys
    → end_of < 2 ^ 62
    → add_loop
        (suc fuel)
        (record {
          r = reading rest;
          logical = logical;
          next = at;
          pend = differences xs (take (length xs) ys);
          max = max;
        })
        end_of
        (done ++ ys)
      ≡ add_loop fuel
          (advance (before max logical (at + length xs) rest))
          end_of
          ((done ++ xs) ++ drop (length xs) ys)
unfolding add_loop
add_loop-run fuel max logical at rest done xs ys end_of le some_bytes bx by here there small =
    let n = length xs in
    let size : length (take n ys) ≡ n = length-take_le n ys le in
    let pend_size : length (differences xs (take n ys)) ≡ n =
      length-differences xs (take n ys) (sym size) in
    let all_pend : take n (differences xs (take n ys)) ≡ differences xs (take n ys) =
      take-length_le n _ (omega (arith, pend_size)) in
    let restored : sums (take n ys) (differences xs (take n ys)) ≡ xs =
      sums-differences xs (take n ys) (sym size) bx (All_take _ n ys by) in
    let whole : min n (end_of - at) ≡ n = omega arith in
    let base : at - logical ≡ length done = omega arith in
    let in_region : ltb n n ≡ false = ground arith in
    rw
      (
        lt64-true at end_of (omega arith) (omega arith),
        lt64-false at logical (omega arith) (omega arith),
        pend_size,
        whole,
        in_region,
        base,
        slice-append done ys n,
        all_pend,
        restored,
        overwrite-append done xs ys,
        add64-eq at n (omega arith),
        advance-pend max logical (at + n) rest (differences xs (take n ys)),
      )
      (ap (add_loop fuel (advance (before max logical (at + n) rest)) end_of)
        (sym (append_assoc done xs (drop n ys))))

settled-logical :
    (d : DiffReader) (r : Rbuf) (next : ℕ) (pend : List ℕ) (e : Option Error)
    → (settled d r next pend e).logical ≡ d.logical
settled-logical d r next pend none = refl
settled-logical d r next pend (some e) = refl

pub advance-logical : (d : DiffReader) → (advance d).logical ≡ d.logical
unfolding advance
advance-logical d =
    if_both {A = DiffReader} (λ d'. d'.logical ≡ d.logical) (length d.r.b == 0) refl
      (settled-logical d _ _ _ _)

settled-at :
    (d : DiffReader) (r : Rbuf) (n next : ℕ) (pend : List ℕ) (e : Option Error)
    → record (settled d r next pend e) { logical = n }
      ≡ settled (record d { logical = n }) r next pend e
settled-at d r n next pend none = refl
settled-at d r n next pend (some e) = refl

-- Reading ahead does not look at the position.
pub advance-at :
    (max logical base n : ℕ) (s : List ℕ)
    → record (advance (before max logical base s)) { logical = n } ≡ advance (before max n base s)
unfolding advance
advance-at max logical base n s = elim (Bool-cases (length s == 0)) [
  | inl empty ↦ rw empty refl
  | inr more ↦ rw more (settled-at (before max logical base s) _ n _ _ _)
]
