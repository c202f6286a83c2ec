-- ===== src/Delta/Plain/RoundTrip/Panics.antt =====
-- What a corrupt body may hold: a seek so far out that the sum with the next match's length passes
-- the largest int64. The sum is then below 0, and below the length of the old file.
use go_binsync.Prelude.{
  ℕ, ◌+◌, ◌^◌, ◌≤◌, ◌<◌, ◌≡◌, refl, ap, ◌∙◌, true, false, List, [], ◌++◌, ok, panic, ◌>>=◌, length,
  arith,
}
use go_binsync.Int64.{add64, lt64}
use go_binsync.Int64.Laws.{lt64-false}
use go_binsync.Varint.{is_neg, put_uvarint, put_varint}
use go_binsync.Delta.Buf.Laws.{un-put, s-put}
use go_binsync.Delta.Plain.Runs.{add, add_loop, advance}
use go_binsync.Delta.Plain.Patch.{
  old_slice, copy_match, copy_literals, triple, triples, finish, plain_patch,
}
use go_binsync.Delta.Plain.RoundTrip.Packing.{packed, plain_patch-packed}
use go_binsync.Delta.Plain.RoundTrip.Triple.{
  numbers, length-numbers, ahead, copy_match-add, copy_literals-append,
}
use go_binsync.Delta.Plain.RoundTrip.Sending.{no_runs}

-- Two triples: the first one only seeks, the second one copies.
abbrev pub far_body : ℕ → ℕ → List ℕ
far_body seek n = packed 2 (numbers 0 0 seek (numbers n 0 0 [])) [] []

module _ (old : List ℕ) (new_len seek n : ℕ) (old_small : length old < 2 ^ 62)
    (small : new_len < 2 ^ 62) (some_bytes : 1 ≤ n) (fits : n ≤ new_len) (positive : seek < 2 ^ 63)
    (far : 2 ^ 63 ≤ seek + n) where
  within : lt64 new_len (0 + n) ≡ false
  within = lt64-false new_len (0 + n) (omega arith) (omega arith)

  not_below : is_neg seek ≡ false
  not_below = ground arith

  -- The sum is below 0.
  passes : lt64 (length old) (add64 seek n) ≡ false
  unfolding lt64 add64
  passes = ground arith

  below_seek : lt64 (add64 seek n) seek ≡ true
  unfolding lt64 add64
  below_seek = ground arith

  copies : triple old new_len (ahead new_len no_runs (numbers n 0 0 []) [] [] seek []) ≡ panic
  unfolding triple copy_match old_slice
  copies =
      rw
        (
          un-put n new_len (put_uvarint 0 ++ (put_varint 0 ++ [])) (omega arith) fits,
          un-put 0 new_len (put_varint 0 ++ []) (omega arith) (omega arith),
          s-put 0 [] (omega arith),
          within,
          not_below,
          passes,
          below_seek,
        )
        refl

  nothing_added : let d = (ahead new_len no_runs [] [] [] 0 []).diff in add d [] ≡ ok (d, [])
  unfolding add add_loop advance lt64 add64
  nothing_added = refl

  seeks :
      triple old new_len (ahead new_len no_runs (numbers 0 0 seek (numbers n 0 0 [])) [] [] 0 [])
      ≡ ok (ahead new_len no_runs (numbers n 0 0 []) [] [] seek [])
  unfolding triple
  seeks =
      let c = numbers n 0 0 [] in
      let p = ahead new_len no_runs c [] [] 0 [] in
      rw
        (
          un-put 0 new_len (put_uvarint 0 ++ (put_varint seek ++ c)) (omega arith) (omega arith),
          un-put 0 new_len (put_varint seek ++ c) (omega arith) (omega arith),
          s-put seek c (omega arith),
        )
        (ap (λ r. r >>= copy_literals new_len 0 seek)
            (copy_match-add old new_len small old_small 0 p p.diff [] (omega arith) (omega arith)
              nothing_added)
          ∙ copy_literals-append old new_len small old_small 0 seek p [] [] refl refl (omega arith)
              (omega arith)
          ∙ ap (λ (o : ℕ). ok (ahead new_len no_runs c [] [] o [])) (unfold add64 in omega arith))

  -- plainPatch panics on a body that seeks to a place below 2^63 and copies from there bytes, no more
  -- than the new file has, up to 2^63 or past it.
  pub plain_patch_panics : plain_patch old (far_body seek n) new_len ≡ panic
  unfolding triples
  plain_patch_panics =
      let size = length-numbers 0 0 seek (numbers n 0 0 []) in
      let size2 = length-numbers n 0 0 [] in
      plain_patch-packed old new_len 2 (numbers 0 0 seek (numbers n 0 0 [])) [] [] small
        (omega (arith, size)) (omega (arith, size, size2)) (omega arith) (omega arith)
      ∙ ap (λ r. (r >>= λ q. triple old new_len q >>= λ q'. ok q') >>= finish new_len) seeks
      ∙ ap (λ r. (r >>= λ q. ok q) >>= finish new_len) copies
