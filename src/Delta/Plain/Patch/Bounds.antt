-- ===== src/Delta/Plain/Patch/Bounds.antt =====
-- plainPatch on any body: it ends, and what it makes is as long as the container says.
use go_binsync.Prelude.{
  ℕ, zero, suc, ◌+◌, ◌^◌, ◌≤◌, ◌<◌, ◌≡◌, false, ◌||◌, inl, inr, Bool-cases, not, Option, none, some,
  if◌then◌else◌, List, [], ◌++◌, ok, err, ◌>>=◌, Outcome, Outcome-bind, length, take, ◌==◌,
  length-append, length-take, length-slice, arith,
}
use go_binsync.Int64.{add64, lt64}
use go_binsync.Int64.Laws.{lt64-le}
use go_binsync.Varint.{is_neg}
use go_binsync.Delta.Errors.{Error, plain_incomplete}
use go_binsync.Delta.Buf
use go_binsync.Delta.Buf.{Rbuf, reading}
use go_binsync.Delta.Buf.Laws.{un-le}
use go_binsync.Delta.Correct.Apply.{check}
use go_binsync.Delta.Plain.Runs
use go_binsync.Delta.Plain.Runs.{DiffReader, new_diff_reader, advance, add}
use go_binsync.Delta.Plain.Runs.Bounds.{IsAhead, add-Outcome, advance-Near}
use go_binsync.Delta.Plain.Runs.Steps.{before, advance-logical}
use go_binsync.Delta.Plain.Patch.{
  Progress, old_slice, copy_match, copy_literals, triple, triples, finish, plain_patch,
}

check-Outcome : (e : Option Error) → Outcome (λ _. Unit) (check e)
check-Outcome none = tt
check-Outcome (some e) = tt

module _ (old : List ℕ) (max : ℕ) (old_small : length old < 2 ^ 62) (small : max < 2 ^ 62) where
  -- In front of a triple.
  record IsProgress (p : Progress) : Type 0 where
    next_lt : p.diff.next < 2 ^ 64
    logical_le : p.diff.logical ≤ length p.out
    out_le : length p.out ≤ max

  old_slice-Outcome :
      (opos n : ℕ)
      → n ≤ max
      → is_neg opos ≡ false
      → lt64 (length old) (add64 opos n) ≡ false
      → Outcome (λ r. length r ≡ n) (old_slice old opos n)
  unfolding old_slice add64 lt64
  old_slice-Outcome opos n le positive fits = ground (arith, length-slice opos (opos + n) old)

  added :
      (n : ℕ) (p : Progress)
      → IsProgress p
      → length p.out + n ≤ max
      → (region : List ℕ) → length region ≡ n
      → Outcome IsProgress (
          add p.diff region >>= λ r.
          ok (record p { diff = r.0; out = p.out ++ r.1; opos = add64 p.opos n }))
  added n p h room region same =
      Outcome-bind (IsAhead p.diff.logical (length region)) IsProgress (add p.diff region) _
        (add-Outcome p.diff region h.next_lt (omega (arith, h.logical_le)))
        (λ (d, dst) (next_lt, at, len). record {
          next_lt = next_lt;
          logical_le = omega (arith, length-append p.out dst, h.logical_le);
          out_le = omega (arith, length-append p.out dst);
        })

  copy_match-Outcome :
      (n : ℕ) (p : Progress) → n ≤ max → IsProgress p → Outcome IsProgress (copy_match old max n p)
  unfolding copy_match
  copy_match-Outcome n p le h = elim (Bool-cases (lt64 max (length p.out + n))) [
    | inl over ↦ rw over tt
    | inr room ↦ elim (Bool-cases (is_neg p.opos)) [
      | inl negative ↦ rw (room, negative) tt
      | inr positive ↦ elim (Bool-cases (lt64 (length old) (add64 p.opos n))) [
        | inl past ↦ rw (room, positive, past) tt
        | inr fits ↦
            rw (room, positive, fits)
              (Outcome-bind (λ r. length r ≡ n) IsProgress (old_slice old p.opos n) _
                (old_slice-Outcome p.opos n le positive fits)
                (added n p h (lt64-le max (length p.out + n) (omega arith) (omega arith) room)))
      ]
    ]
  ]

  copy_literals-Outcome :
      (ne seek : ℕ) (p : Progress)
      → ne ≤ max
      → IsProgress p
      → Outcome IsProgress (copy_literals max ne seek p)
  unfolding copy_literals
  copy_literals-Outcome ne seek p le h = elim (Bool-cases (lt64 (length p.extra) ne)) [
    | inl short ↦ rw short tt
    | inr some_left ↦ elim (Bool-cases (lt64 max (length p.out + ne))) [
      | inl over ↦ rw (some_left, over) tt
      | inr room ↦
          rw (some_left, room)
            (let len = length-append p.out (take ne p.extra) in
              record {
                next_lt = h.next_lt;
                logical_le = omega (arith, len, h.logical_le);
                out_le = omega (
                  arith,
                  len,
                  length-take ne p.extra,
                  lt64-le max (length p.out + ne) (omega arith) (omega arith) room,
                );
              })
    ]
  ]

  triple-Outcome : (p : Progress) → IsProgress p → Outcome IsProgress (triple old max p)
  unfolding triple
  triple-Outcome p h =
      let (nd, c1) = Buf.un p.ctrl max in
      let (ne, c2) = Buf.un c1 max in
      let (seek, c3) = Buf.s c2 in
      Outcome-bind (λ _. Unit) IsProgress (check c3.error) _ (check-Outcome c3.error)
        (λ _ _.
          Outcome-bind IsProgress IsProgress (copy_match old max nd (record p { ctrl = c3 })) _
            (copy_match-Outcome nd (record p { ctrl = c3 }) (un-le p.ctrl max)
              (record { next_lt = h.next_lt; logical_le = h.logical_le; out_le = h.out_le }))
            (λ q. copy_literals-Outcome ne seek q (un-le c1 max)))

  triples-Outcome : (n : ℕ) (p : Progress) → IsProgress p → Outcome IsProgress (triples n old max p)
  unfolding triples
  triples-Outcome zero p h = h
  triples-Outcome (suc n) p h =
      Outcome-bind IsProgress IsProgress (triple old max p) _ (triple-Outcome p h)
        (triples-Outcome n)

  finish-Outcome : (p : Progress) → Outcome (λ out. length out ≡ max) (finish max p)
  unfolding finish
  finish-Outcome p =
      Outcome-bind (λ _. Unit) (λ out. length out ≡ max) (check (Buf.done p.ctrl)) _
        (check-Outcome (Buf.done p.ctrl))
        (λ _ _.
          Outcome-bind (λ _. Unit) (λ out. length out ≡ max) (check (Runs.done p.diff)) _
            (check-Outcome (Runs.done p.diff)) (λ _ _. ended))
    where
      ended :
          Outcome {E = Error}
            (λ out. length out ≡ max)
            (if not (length p.out == max) || not (length p.extra == 0)
              then err plain_incomplete
              else ok p.out)
      ended = ground arith

-- For any old file below 2^62 bytes, any body and any length below 2^62, plainPatch comes to an end,
-- and a file that it returns has that length.
pub plain_patch-Outcome :
    (old body : List ℕ) (n : ℕ)
    → length old < 2 ^ 62
    → n < 2 ^ 62
    → Outcome (λ out. length out ≡ n) (plain_patch old body n)
unfolding plain_patch new_diff_reader
plain_patch-Outcome old body n old_small small =
    let (ntriples, r1) = Buf.un (reading body) (length body) in
    let (ctrl_len, r2) = Buf.un r1 (length body) in
    let (diff_len, r3) = Buf.un r2 (length body) in
    let (extra_len, r4) = Buf.un r3 n in
    let (ctrl, r5) = Buf.take_bytes r4 ctrl_len in
    let (diff, r6) = Buf.take_bytes r5 diff_len in
    let (extra, r7) = Buf.take_bytes r6 extra_len in
    let d = before n 0 0 diff in
    let p : Progress = record {
      ctrl = reading ctrl;
      diff = advance d;
      extra = extra;
      opos = 0;
      out = [];
    } in
    Outcome-bind (λ _. Unit) (λ out. length out ≡ n) (check (Buf.done r7)) _
      (check-Outcome (Buf.done r7))
      (λ _ _.
        Outcome-bind (IsProgress old n old_small small) (λ out. length out ≡ n)
          (triples ntriples old n p) _
          (triples-Outcome old n old_small small ntriples p (record {
            next_lt = (advance-Near d (length diff) (omega arith)).0;
            logical_le = omega (arith, advance-logical d);
            out_le = omega arith;
          }))
          (λ q _. finish-Outcome old n old_small small q))
