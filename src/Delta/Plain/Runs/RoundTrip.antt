-- ===== src/Delta/Plain/Runs/RoundTrip.antt =====
-- What diffWriter writes of a region, diffReader puts back onto it.
use go_binsync.Prelude.{
  ℕ, zero, suc, ◌+◌, ◌-◌, ◌*◌, ◌^◌, ◌≤◌, ◌<◌, ◌≡◌, refl, sym, ap, ◌∙◌, none, List, [], ◌∷◌, ◌++◌,
  ok, ◌>>=◌, length, take, drop, ◌==◌, ==_iff, inl, inr, Bool-cases, All_take, All_drop, arith,
  length-append, length-drop, length-take_le, append_assoc, append-nil, take-append-drop,
}
use go_binsync.Int64.{add64}
use go_binsync.Int64.Laws.{add64-eq, lt64-false}
use go_binsync.Varint.{put_uvarint}
use go_binsync.Delta.Buf.Put
use go_binsync.Delta.Correct.RoundTrip.Bounds.{length-put_uvarint}
use go_binsync.Delta.Plain.Runs.{
  DiffWriter, DiffReader, run_length, differences, put_run, write_loop, write, advance, add_loop,
  add, arrived,
}
use go_binsync.Delta.Plain.Runs.Steps.{
  AreBytes, before, Later, advance-logical, advance-at, run_length-le, length-differences,
  advance-run, add_loop-run,
}

-- A run of `n` bytes at `at`, behind one that ended at `base`.
abbrev run_bytes : ℕ → ℕ → ℕ → List ℕ → List ℕ → List ℕ → List ℕ
run_bytes base at n xs ys rest =
    put_uvarint (at - base) ++ (put_uvarint n ++ (differences (take n xs) (take n ys) ++ rest))

module _ (max base at n : ℕ) (xs ys rest : List ℕ) (small : max < 2 ^ 62) (behind : base ≤ at)
    (nonempty : 1 ≤ n) (fits : n ≤ length xs) (same : length xs ≡ length ys)
    (room : at + length xs ≤ max) where
  abbrev pend : List ℕ
  pend = differences (take n xs) (take n ys)

  length-pend : length pend ≡ n
  length-pend =
      length-differences (take n xs) (take n ys)
        (length-take_le n xs fits ∙ sym (length-take_le n ys (omega arith)))
      ∙ length-take_le n xs fits

  advance-run_bytes :
      (logical : ℕ)
      → advance (before max logical base (run_bytes base at n xs ys rest)) ≡ record {
        r = record { b = rest; error = none };
        logical = logical;
        next = at;
        pend = pend;
        max = max;
      }
  advance-run_bytes logical =
      ap
        (λ (k : ℕ).
          advance (
            before max logical base (put_uvarint (at - base) ++ (put_uvarint k ++ (pend ++ rest)))))
        (sym length-pend)
      ∙ advance-run max logical base (at - base) pend rest small (omega arith)
          (omega (arith, length-pend)) (omega (arith, length-pend))
      ∙ ap
          (λ (k : ℕ). record {
            r = record { b = rest; error = none };
            logical = logical;
            next = k;
            pend = pend;
            max = max;
          })
          {x = base + (at - base)} (omega arith)

  add_loop-run_bytes :
      (fuel logical end_of : ℕ) (done : List ℕ)
      → AreBytes xs
      → AreBytes ys
      → logical + length done ≡ at
      → end_of ≡ at + length ys
      → add_loop
          (suc fuel)
          (advance (before max logical base (run_bytes base at n xs ys rest)))
          end_of
          (done ++ ys)
        ≡ add_loop fuel
            (advance (before max logical (at + n) rest))
            end_of
            ((done ++ take n xs) ++ drop n ys)
  add_loop-run_bytes fuel logical end_of done bx by here there =
      let size : length (take n xs) ≡ n = length-take_le n xs fits in
      rw (advance-run_bytes logical) (
        rw size at (
          add_loop-run fuel max logical at rest done (take n xs) ys end_of (omega (arith, size))
            (omega (arith, size)) (All_take _ n xs bx) by here there (omega arith)))

add_loop-stop :
    (fuel end_of : ℕ) (d : DiffReader) (dst : List ℕ)
    → end_of ≤ d.next
    → d.next < 2 ^ 63
    → add_loop (suc fuel) d end_of dst ≡ ok (d, dst)
unfolding add_loop
add_loop-stop fuel end_of d dst h k = rw (lt64-false d.next end_of h k) refl

-- `w` are the runs of the region at `at`, which make `xs` of `ys`; the stream goes on behind `base'`.
record Replays (max at end_of : ℕ) (xs ys : List ℕ) (base base' : ℕ) (w : List ℕ) : Type 0 where
  size : length w ≤ 21 * length xs
  base_le : base' ≤ end_of
  later : (rest : List ℕ) → Later max end_of base' rest → Later max at base (w ++ rest)
  replays :
      (fuel logical : ℕ) (rest done : List ℕ)
      → Later max end_of base' rest
      → logical + length done ≡ at
      → length (w ++ rest) < fuel
      → add_loop fuel (advance (before max logical base (w ++ rest))) end_of (done ++ ys)
        ≡ ok (advance (before max logical base' rest), done ++ xs)

nothing-Replays : (max at base : ℕ) → base ≤ at → Replays max at at [] [] base base []
nothing-Replays max at base h = record {
  size = omega arith;
  base_le = h;
  later = λ rest l. l;
  replays = go;
}
  where
    go :
        (fuel logical : ℕ) (rest done : List ℕ)
        → Later max at base rest
        → logical + length done ≡ at
        → length rest < fuel
        → add_loop fuel (advance (before max logical base rest)) at (done ++ [])
          ≡ ok (advance (before max logical base rest), done ++ [])
    go zero logical rest done l h k = absurd (omega arith)
    go (suc fuel) logical rest done l h k =
        add_loop-stop fuel at (advance (before max logical base rest)) (done ++ [])
          (l.from_bound logical) (l.in_range logical)

same-Replays :
    (max at end_of x base base' : ℕ) (xs ys w : List ℕ)
    → Replays max (at + 1) end_of xs ys base base' w
    → Replays max at end_of (x ∷ xs) (x ∷ ys) base base' w
same-Replays max at end_of x base base' xs ys w r = record {
  size = omega (arith, r.size);
  base_le = r.base_le;
  later = λ rest l.
      let l' = r.later rest l in
      record {
        from_bound = λ n. omega (arith, l'.from_bound n);
        in_range = l'.in_range;
        rounds = l'.rounds;
      };
  replays = λ fuel logical rest done l h k.
      ap (add_loop fuel (advance (before max logical base (w ++ rest))) end_of)
        (sym (append_assoc done (x ∷ []) ys))
      ∙ r.replays fuel logical rest (done ++ x ∷ []) l (omega (arith, length-append done (x ∷ [])))
          k
      ∙ ap (λ t. ok (advance (before max logical base' rest), t)) (append_assoc done (x ∷ []) xs);
}

run_bytes-append :
    (base at n : ℕ) (xs ys w rest : List ℕ)
    → run_bytes base at n xs ys w ++ rest ≡ run_bytes base at n xs ys (w ++ rest)
run_bytes-append base at n xs ys w rest = simp append_assoc

module _ (max base at n : ℕ) (xs ys : List ℕ) (small : max < 2 ^ 62) (behind : base ≤ at)
    (nonempty : 1 ≤ n) (fits : n ≤ length xs) (same : length xs ≡ length ys)
    (room : at + length xs ≤ max) (bx : AreBytes xs) (by : AreBytes ys) where
  length-run_bytes :
      (rest : List ℕ)
      → (length (run_bytes base at n xs ys rest) ≤ 20 + n + length rest)
        × (n + length rest ≤ length (run_bytes base at n xs ys rest))
  length-run_bytes rest =
      let b = differences (take n xs) (take n ys) in
      let b_size = length-pend max base at n xs ys rest small behind nonempty fits same room in
      let outer = length-append (put_uvarint (at - base)) (put_uvarint n ++ (b ++ rest)) in
      let middle = length-append (put_uvarint n) (b ++ rest) in
      let inner = length-append b rest in
      (
        omega (
          arith,
          outer,
          middle,
          inner,
          b_size,
          length-put_uvarint (at - base),
          length-put_uvarint n,
        ),
        omega (arith, outer, middle, inner, b_size),
      )

  run-Replays :
      (end_of base' : ℕ) (w : List ℕ)
      → end_of ≡ at + length xs
      → Replays max (at + n) end_of (drop n xs) (drop n ys) (at + n) base' w
      → Replays max at end_of xs ys base base' (run_bytes base at n xs ys w)
  run-Replays end_of base' w there r = record {
    size = omega (arith, r.size, (length-run_bytes w).0, length-drop n xs);
    base_le = r.base_le;
    later = λ rest l. rw (run_bytes-append base at n xs ys w rest) (record {
      from_bound = λ logical. omega (
        arith,
        ap (λ d. d.next)
            (advance-run_bytes max base at n xs ys (w ++ rest) small behind nonempty fits same room
              logical),
      );
      in_range = λ logical. omega (
        arith,
        ap (λ d. d.next)
            (advance-run_bytes max base at n xs ys (w ++ rest) small behind nonempty fits same room
              logical),
      );
      rounds = λ logical.
          let d =
            advance-run_bytes max base at n xs ys (w ++ rest) small behind nonempty fits same room
              logical in
          omega (
            arith,
            ap (λ d. length d.r.b + length d.pend) d,
            length-pend max base at n xs ys (w ++ rest) small behind nonempty fits same room,
            (length-run_bytes (w ++ rest)).0,
          );
    });
    replays = λ fuel logical rest done l h k. rw (run_bytes-append base at n xs ys w rest) (
        go fuel logical rest done l h (
          omega (
            arith,
            k,
            ap length (run_bytes-append base at n xs ys w rest),
            (length-run_bytes (w ++ rest)).1,
          )));
  }
    where
      go :
          (fuel logical : ℕ) (rest done : List ℕ)
          → Later max end_of base' rest
          → logical + length done ≡ at
          → length (w ++ rest) + 1 < fuel
          → add_loop fuel
              (advance (before max logical base (run_bytes base at n xs ys (w ++ rest))))
              end_of
              (done ++ ys)
            ≡ ok (advance (before max logical base' rest), done ++ xs)
      go zero logical rest done l h k = absurd (omega arith)
      go (suc fuel) logical rest done l h k =
          add_loop-run_bytes max base at n xs ys (w ++ rest) small behind nonempty fits same room
            fuel logical end_of done bx by h (omega arith)
          ∙ r.replays fuel logical rest (done ++ take n xs) l
              (omega (arith, length-append done (take n xs), length-take_le n xs fits))
              (omega arith)
          ∙ ap (λ t. ok (advance (before max logical base' rest), t))
              (append_assoc done (take n xs) (drop n xs)
                ∙ ap (λ t. done ++ t) (take-append-drop n xs))

-- The runs that the loop over a region writes.
record Written (max at : ℕ) (xs ys : List ℕ) (d d' : DiffWriter) : Type 0 where
  bytes : List ℕ
  appended : d'.w ≡ d.w ++ bytes
  runs : Replays max at (at + length xs) xs ys d.last_end d'.last_end bytes

nothing-Written : (max at : ℕ) (d : DiffWriter) → d.last_end ≤ at → Written max at [] [] d d
nothing-Written max at d behind = record {
  bytes = [];
  appended = sym (append-nil d.w);
  runs = let e : at + 0 ≡ at = omega arith in rw e (nothing-Replays max at d.last_end behind);
}

same-Written :
    (max at x : ℕ) (xs ys : List ℕ) (d d' : DiffWriter)
    → Written max (at + 1) xs ys d d'
    → Written max at (x ∷ xs) (x ∷ ys) d d'
same-Written max at x xs ys d d' w = record {
  bytes = w.bytes;
  appended = w.appended;
  runs =
      let e : at + suc (length xs) ≡ at + 1 + length xs = omega arith in
      rw e (same-Replays max at (at + 1 + length xs) x d.last_end d'.last_end xs ys w.bytes w.runs);
}

run-Written :
    (max at n : ℕ) (xs ys : List ℕ) (d d' : DiffWriter)
    → max < 2 ^ 62
    → d.last_end ≤ at
    → 1 ≤ n
    → n ≤ length xs
    → length xs ≡ length ys
    → at + length xs ≤ max
    → AreBytes xs
    → AreBytes ys
    → Written max (at + n) (drop n xs) (drop n ys) (put_run d at n xs ys) d'
    → Written max at xs ys d d'
unfolding put_run Put.u
run-Written max at n xs ys d d' small behind nonempty fits same room bx by w = record {
  bytes = run_bytes d.last_end at n xs ys w.bytes;
  appended = w.appended ∙ simp append_assoc;
  runs =
      let e : at + n + length (drop n xs) ≡ at + length xs = omega (arith, length-drop n xs) in
      run-Replays max d.last_end at n xs ys small behind nonempty fits same room bx by
        (at + length xs) d'.last_end w.bytes refl (rw e at w.runs);
}

write_loop-Written :
    (fuel max at : ℕ) (xs ys : List ℕ) (d : DiffWriter)
    → length xs ≤ fuel
    → max < 2 ^ 62
    → d.last_end ≤ at
    → length xs ≡ length ys
    → at + length xs ≤ max
    → AreBytes xs
    → AreBytes ys
    → Written max at xs ys d (write_loop fuel d at xs ys)
unfolding write_loop
write_loop-Written fuel max at [] (y ∷ ys) d le small behind same room bx by = absurd (omega arith)
write_loop-Written fuel max at (x ∷ xs) [] d le small behind same room bx by = absurd (omega arith)
write_loop-Written zero max at (x ∷ xs) (y ∷ ys) d le small behind same room bx by =
    absurd (omega arith)
write_loop-Written zero max at [] [] d le small behind same room bx by =
    nothing-Written max at d behind
write_loop-Written (suc fuel) max at [] [] d le small behind same room bx by =
    nothing-Written max at d behind
write_loop-Written (suc fuel) max at (x ∷ xs) (y ∷ ys) d le small behind same room bx by =
    let n = suc (run_length (length xs) xs ys) in
    let n_le : n ≤ suc (length xs) = omega (arith, run_length-le (length xs) xs ys) in
    elim (Bool-cases (x == y)) [
      | inl equal ↦
          let e = (==_iff x y).0 equal in
          rw equal (
            rw (← e) (
              same-Written max at x xs ys d (write_loop fuel d (at + 1) xs ys) (
                write_loop-Written fuel max (at + 1) xs ys d (omega arith) small (omega arith)
                  (omega arith) (omega arith) bx.1 by.1)))
      | inr other ↦ rw other (
          run-Written max at n (x ∷ xs) (y ∷ ys) d _ small behind (omega arith) n_le same room bx by
            (write_loop-Written fuel max (at + n) (drop n (x ∷ xs)) (drop n (y ∷ ys))
              (put_run d at n (x ∷ xs) (y ∷ ys)) (omega (arith, length-drop n (x ∷ xs))) small
              (unfold put_run in omega arith)
              (omega (arith, length-drop n (x ∷ xs), length-drop n (y ∷ ys)))
              (omega (arith, length-drop n (x ∷ xs))) (All_drop _ n (x ∷ xs) bx)
              (All_drop _ n (y ∷ ys) by)))
    ]

-- The runs of one region, for the writer at the same position as the reader.
pub record Diffs (max : ℕ) (d d' : DiffWriter) (xs ys : List ℕ) : Type 0 where
  pub bytes : List ℕ
  pub appended : d'.w ≡ d.w ++ bytes
  pub size : length bytes ≤ 21 * length xs
  pub logical_eq : d'.logical ≡ d.logical + length xs
  pub base_le : d'.last_end ≤ d'.logical
  pub later :
      (rest : List ℕ)
      → Later max d'.logical d'.last_end rest
      → Later max d.logical d.last_end (bytes ++ rest)
  pub put_back :
      (rest : List ℕ)
      → Later max d'.logical d'.last_end rest
      → add (advance (before max d.logical d.last_end (bytes ++ rest))) ys
        ≡ ok (advance (before max d'.logical d'.last_end rest), xs)

pub write-Diffs :
    (max : ℕ) (d : DiffWriter) (xs ys : List ℕ)
    → max < 2 ^ 62
    → d.last_end ≤ d.logical
    → length xs ≡ length ys
    → d.logical + length xs ≤ max
    → AreBytes xs
    → AreBytes ys
    → Diffs max d (write d xs ys) xs ys
unfolding write add
write-Diffs max d xs ys small behind same room bx by =
    let w =
      write_loop-Written (length xs) max d.logical xs ys d (omega arith) small behind same room bx
        by in
    record {
      bytes = w.bytes;
      appended = w.appended;
      size = w.runs.size;
      logical_eq = refl;
      base_le = w.runs.base_le;
      later = w.runs.later;
      put_back = λ rest l.
          let d0 = before max d.logical d.last_end (w.bytes ++ rest) in
          let r = advance d0 in
          let at_start : r.logical ≡ d.logical = advance-logical d0 in
          let ends : add64 r.logical (length ys) ≡ d.logical + length xs =
            add64-eq r.logical (length ys) (omega (arith, at_start)) ∙ omega (arith, at_start) in
          let enough = (w.runs.later rest l).rounds d.logical in
          ap (λ (e : ℕ). add_loop (length r.r.b + length r.pend + 22) r e ys >>= arrived e) ends
          ∙ ap (λ m. m >>= arrived (d.logical + length xs))
              (w.runs.replays (length r.r.b + length r.pend + 22) d.logical rest [] l (omega arith)
                (omega arith))
          ∙ ap (λ r'. ok (r', xs)) (advance-at max d.logical _ (d.logical + length xs) rest);
    }
