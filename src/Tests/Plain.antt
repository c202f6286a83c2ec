-- ===== src/Tests/Plain.antt =====
-- The plain codec, on a file in which one byte differs and one is added.
use go_binsync.Prelude.{
  ℕ, ◌-◌, ◌^◌, ◌≡◌, refl, List, [], ◌∷◌, ok, panic, ◌>>=◌, Outcome, length, arith,
}
use go_binsync.Int64.{add64}
use go_binsync.Varint.{put_uvarint, put_varint}
use go_binsync.Delta.Buf.Put
use go_binsync.Delta.Lz.Match.{find, new_index}
use go_binsync.Delta.Plain.Runs.{write}
use go_binsync.Delta.Plain.Encode.{plain_diff}
use go_binsync.Delta.Plain.Patch.{plain_patch}
use go_binsync.Delta.Plain.Patch.Bounds.{plain_patch-Outcome}
use go_binsync.Delta.Plain.RoundTrip.{plain_patch-plain_diff}
use go_binsync.Delta.Plain.RoundTrip.Panics.{far_body, plain_patch_panics}

abbrev old_file : List ℕ
old_file = 1 ∷ 2 ∷ 3 ∷ 4 ∷ 5 ∷ []

abbrev new_file : List ℕ
new_file = 1 ∷ 9 ∷ 3 ∷ 4 ∷ 5 ∷ 6 ∷ []

abbrev small_body : List ℕ
small_body = 1 ∷ 3 ∷ 3 ∷ 1 ∷ 5 ∷ 1 ∷ 9 ∷ 1 ∷ 1 ∷ 7 ∷ 6 ∷ []

-- One triple: five bytes with a run of one difference, and one literal.
plain_diff_small : plain_diff old_file new_file ≡ ok small_body
unfolding plain_diff Put.u Put.s Put.raw write put_uvarint put_varint find new_index add64
plain_diff_small = refl

plain_patch-plain_diff_example :
    (plain_diff old_file new_file >>= λ b. plain_patch old_file b (length new_file)) ≡ ok new_file
plain_patch-plain_diff_example =
    plain_patch-plain_diff old_file new_file (omega arith) (omega arith) (omega arith) (omega arith)

plain_patch-Outcome_example : Outcome (λ out. length out ≡ 6) (plain_patch old_file small_body 6)
plain_patch-Outcome_example = plain_patch-Outcome old_file small_body 6 (omega arith) (omega arith)

plain_patch_panics_example : plain_patch old_file (far_body (2 ^ 63 - 1) 1) 1 ≡ panic
plain_patch_panics_example =
    plain_patch_panics old_file 1 (2 ^ 63 - 1) 1 (omega arith) (omega arith) (omega arith)
      (omega arith) (omega arith) (omega arith)
