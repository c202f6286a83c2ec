-- ===== src/Delta/Go127/RoundTrip.antt =====
-- applyGoAMD64 of what encodeGoAMD64 makes.
pub mod Ends
use go_binsync.Prelude.{
  ℕ, ◌^◌, ◌≤◌, ◌<◌, ◌≡◌, ◌≢◌, refl, sym, ap, ◌∙◌, ◌⊎◌, inl, inr, Bool-cases, true, false, Bool,
  List, [], ◌∷◌, ◌++◌, Result, ok, err, panic, stuck, ◌>>=◌, length, ◌==◌, if◌then◌else◌, Outcome,
  Outcome-bind, Outcome-then, >>=-Ends, >>=-eq-ok, append_assoc, slice, overwrite, arith,
}
use go_binsync.Int64.{add64}
use go_binsync.Varint.{IsU64, put_uvarint}
use go_binsync.Release.Hash.RoundTrip.{bytes_eq_iff}
use go_binsync.Delta.Errors.{Error, unsupported, not_go, tables_wrong, size_mismatch}
use go_binsync.Delta.Buf.{reading}
use go_binsync.Delta.Buf
use go_binsync.Delta.Buf.Put
use go_binsync.Delta.Buf.Laws.{bytes-put, un-put, take_bytes-append}
use go_binsync.Delta.Container.{Header}
use go_binsync.Delta.Correct.Encode.{encode_correction}
use go_binsync.Delta.Correct.Apply.{apply_correction}
use go_binsync.Delta.Correct.RoundTrip.{encode_correction_lem, apply_correction-encode_correction}
use go_binsync.Delta.Plain.Runs.Steps.{AreBytes}
use go_binsync.Delta.Plain.Patch.{plain_patch}
use go_binsync.Delta.Plain.RoundTrip.{plain_diff-IsBody}
use go_binsync.Delta.Go127.{
  Range, Bin, Parts, stage1a_ranges, stage1b_ranges, table, concat_ranges, copy_tables, fill_tables,
  or_error, skeleton_from, predicted_blobs, predicted_whole, body_of, encode_with, encode_go_amd64,
  apply_with, apply_go_amd64,
}
use go_binsync.Delta.Go127.RoundTrip.Ends.{
  or_error-Ends, parsed_by, parsed_ok, ok-Ends, err-Ends, panic-Ends, if-Ends, table-Ends,
  concat_ranges-Ends, copy_tables-Ends, fill_tables-Ends,
}

-- Of the code that the two functions call: it ends; what gobin.Parse finds in a file are bytes, and
-- the tables to be sent do not overlap; the predicted tables are bytes, below 2^32
-- of them, as for every source of an index; and a layout has a length that a Go slice has.
pub record AreParts (p : Parts) : Type 0 where
  pub parse_ends : (f : List ℕ) → p.parse f ≢ stuck
  pub build_ends : (ob nb : Bin p.R) → p.build_layout ob nb ≢ stuck
  pub decode_ends : (raw : List ℕ) (ob : Bin p.R) → p.decode_layout raw ob ≢ stuck
  pub skeleton_ends : (ob : Bin p.R) (l : p.Layout) → p.skeleton ob l ≢ stuck
  pub blobs_end : (ob s : Bin p.R) (m : p.Match) (l : p.Layout) → p.predict_blobs ob s m l ≢ stuck
  pub whole_ends :
      (ob s : Bin p.R) (m : p.Match) (l : p.Layout) (o : p.Offsets)
      → p.predict_whole ob s m l o ≢ stuck
  pub tables :
      (f : List ℕ) (b : Bin p.R) (t : List ℕ)
      → p.parse f ≡ ok b
      → (concat_ranges b (stage1a_ranges b) ≡ ok t) ⊎ (concat_ranges b (stage1b_ranges b) ≡ ok t)
      → AreBytes t × (length t ≤ length f)
  pub layout_small :
      (ob nb : Bin p.R) (raw : List ℕ) → p.build_layout ob nb ≡ ok raw → length raw < 2 ^ 62
  pub blobs_bytes :
      (ob s : Bin p.R) (m : p.Match) (l : p.Layout) (t : List ℕ) (o : p.Offsets)
      → p.predict_blobs ob s m l ≡ ok (t, o)
      → AreBytes t × (length t < 2 ^ 32)
  pub digests : (b : List ℕ) → length (p.hash_of b) ≡ 32

module _ (p : Parts) where
  -- Behind the reads, with every value that the encoder had at that point.
  apply_with_lem :
      (ob skel skel1 : Bin p.R) (m : p.Match) (lay : p.Layout) (offs : p.Offsets)
      → (lay_raw s1a_old s1a_new s1a blobs s1b_new s1b pred s2 new : List ℕ)
      → skeleton_from p ob lay_raw ≡ ok ((skel, m), lay)
      → concat_ranges ob (stage1a_ranges ob) ≡ ok s1a_old
      → plain_patch s1a_old s1a (length s1a_new) ≡ ok s1a_new
      → predicted_blobs p ob skel m lay s1a_new ≡ ok (skel1, (blobs, offs))
      → plain_patch blobs s1b (length s1b_new) ≡ ok s1b_new
      → predicted_whole p ob skel1 m lay offs s1b_new ≡ ok pred
      → apply_correction pred s2 ≡ ok new
      → apply_with p ob lay_raw (length s1a_new) s1a (length s1b_new) s1b (p.hash_of pred) s2
        ≡ ok new
  unfolding apply_with
  apply_with_lem ob skel skel1 m lay offs lay_raw s1a_old s1a_new s1a blobs s1b_new s1b pred s2 new
        e1 e2 e3 e4 e5 e6 e7 =
      rw (e1, e2, e3, e4, e5, e6, (bytes_eq_iff (p.hash_of pred) (p.hash_of pred)).1 refl) e7

  -- The writes, bracketed as they are read.
  body_of-nested :
      (lay_raw s1a_new s1a s1b_new s1b sum s2 : List ℕ)
      → body_of p lay_raw s1a_new s1a s1b_new s1b sum s2
        ≡ Put.bytes [] lay_raw
          ++ (put_uvarint (length s1a_new)
              ++ (Put.bytes [] s1a
                  ++ (put_uvarint (length s1b_new) ++ (Put.bytes [] s1b ++ (sum ++ s2)))))
  unfolding body_of Put.bytes Put.u Put.raw
  body_of-nested lay_raw s1a_new s1a s1b_new s1b sum s2 = simp (append_assoc)

  -- The reads give back what the writes put down.
  apply_go_amd64-body_of :
      (old : List ℕ) (h : Header) (ob : Bin p.R)
      → (lay_raw s1a_new s1a s1b_new s1b sum s2 : List ℕ) → or_error not_go (p.parse old) ≡ ok ob
      → IsU64 (length lay_raw)
      → length s1a_new ≤ h.new_size
      → IsU64 (length s1a_new)
      → IsU64 (length s1a)
      → length s1b_new ≤ h.new_size
      → IsU64 (length s1b_new)
      → IsU64 (length s1b)
      → length sum ≡ 32
      → apply_go_amd64 p old (body_of p lay_raw s1a_new s1a s1b_new s1b sum s2) h
        ≡ apply_with p ob lay_raw (length s1a_new) s1a (length s1b_new) s1b sum s2
  unfolding apply_go_amd64
  apply_go_amd64-body_of old h ob lay_raw s1a_new s1a s1b_new s1b sum s2 parsed h1 h2 h3 h4 h5 h6 h7
        h8 =
      rw
        (
          body_of-nested lay_raw s1a_new s1a s1b_new s1b sum s2,
          parsed,
          bytes-put lay_raw
              (put_uvarint (length s1a_new)
                ++ (Put.bytes [] s1a
                    ++ (put_uvarint (length s1b_new) ++ (Put.bytes [] s1b ++ (sum ++ s2)))))
              h1,
          un-put (length s1a_new) h.new_size
              (Put.bytes [] s1a
                ++ (put_uvarint (length s1b_new) ++ (Put.bytes [] s1b ++ (sum ++ s2))))
              h3 h2,
          bytes-put s1a (put_uvarint (length s1b_new) ++ (Put.bytes [] s1b ++ (sum ++ s2))) h4,
          un-put (length s1b_new) h.new_size (Put.bytes [] s1b ++ (sum ++ s2)) h6 h5,
          bytes-put s1b (sum ++ s2) h7,
          ap (Buf.take_bytes (reading (sum ++ s2))) (sym h8) ∙ take_bytes-append sum s2,
        )
        refl

-- A correction that is made leads from the prediction to the file.
corrected :
    (pred new : List ℕ)
    → length new < 2 ^ 32
    → Outcome (λ s2. apply_correction pred s2 ≡ ok new) (encode_correction pred new)
unfolding encode_correction
corrected pred new small = elim (Bool-cases (length pred == length new)) [
  | inl same ↦
      let e : length pred ≡ length new = ground arith in
      back (encode_correction pred new) (made e)
        (apply_correction-encode_correction pred new e small)
  | inr differs ↦ rw (refused differs) tt
]
  where
    back :
        (r : Result Error (List ℕ))
        → (s : List ℕ) × (r ≡ ok s)
        → (r >>= apply_correction pred) ≡ ok new
        → Outcome (λ s2. apply_correction pred s2 ≡ ok new) r
    back (ok s) h e = e
    back (err d) (s, h) e = cc
    back panic (s, h) e = cc
    back stuck (s, h) e = cc

    made : length pred ≡ length new → (s : List ℕ) × (encode_correction pred new ≡ ok s)
    made e = (_, encode_correction_lem pred new e)

    refused : (length pred == length new) ≡ false → encode_correction pred new ≡ err size_mismatch
    refused e = rw e refl

second {ℓ κ} :
    {A : Type ℓ} {B : Type κ} {a a' : A} {b b' : B}
    → ◌≡◌ {A = Result Error (A × B)} (ok (a, b)) (ok (a', b'))
    → ◌≡◌ {A = Result Error B} (ok b) (ok b')
second h = cc

module _ (p : Parts) (right : AreParts p) where
  skeleton_from-Ends : (ob : Bin p.R) (raw : List ℕ) → skeleton_from p ob raw ≢ stuck
  unfolding skeleton_from
  skeleton_from-Ends ob raw =
      >>=-Ends (p.decode_layout raw ob) _ (right.decode_ends raw ob)
        (λ l. >>=-Ends (p.skeleton ob l) _ (right.skeleton_ends ob l) (λ s. ok-Ends (s, l)))

  predicted_blobs-Ends :
      (ob skel : Bin p.R) (m : p.Match) (l : p.Layout) (s1a : List ℕ)
      → predicted_blobs p ob skel m l s1a ≢ stuck
  unfolding predicted_blobs
  predicted_blobs-Ends ob skel m l s1a =
      >>=-Ends (fill_tables skel (stage1a_ranges skel) s1a) _
        (fill_tables-Ends skel (stage1a_ranges skel) s1a)
        (λ s.
          >>=-Ends (p.predict_blobs ob s m l) _ (right.blobs_end ob s m l) (λ b. ok-Ends (s, b)))

  predicted_whole-Ends :
      (ob skel : Bin p.R) (m : p.Match) (l : p.Layout) (o : p.Offsets) (s1b : List ℕ)
      → predicted_whole p ob skel m l o s1b ≢ stuck
  unfolding predicted_whole
  predicted_whole-Ends ob skel m l o s1b =
      >>=-Ends (fill_tables skel (stage1b_ranges skel) s1b) _
        (fill_tables-Ends skel (stage1b_ranges skel) s1b) (λ s. right.whole_ends ob s m l o)

  -- What the tables of the prediction are: those of predict_blobs, over some skeleton.
  predicted_blobs-bytes :
      (ob skel skel1 : Bin p.R) (m : p.Match) (l : p.Layout) (s1a blobs : List ℕ) (o : p.Offsets)
      → predicted_blobs p ob skel m l s1a ≡ ok (skel1, (blobs, o))
      → AreBytes blobs × (length blobs < 2 ^ 32)
  unfolding predicted_blobs
  predicted_blobs-bytes ob skel skel1 m l s1a blobs o h =
      let (s, _, made) = >>=-eq-ok (fill_tables skel (stage1a_ranges skel) s1a) _ h in
      let ((t, o'), found, same) = >>=-eq-ok (p.predict_blobs ob s m l) _ made in
      right.blobs_bytes ob s m l blobs o (found ∙ second same)

  module _ (old new : List ℕ) (h : Header) (size : h.new_size ≡ length new)
      (small : length new < 2 ^ 32) (old_small : length old < 2 ^ 32) where
    Back : List ℕ → Type 0
    Back body = apply_go_amd64 p old body h ≡ ok new

    encode_with-Back :
        (ob nb : Bin p.R) (lay_raw : List ℕ)
        → or_error unsupported (p.parse old) ≡ ok ob
        → or_error unsupported (p.parse new) ≡ ok nb
        → length lay_raw < 2 ^ 62
        → Outcome Back (encode_with p ob nb new lay_raw)
    unfolding encode_with Back
    encode_with-Back ob nb lay_raw is_ob is_nb lay_small =
        let old_tables = right.tables old ob in
        let new_tables = right.tables new nb in
        let q = parsed_ok unsupported (p.parse old) is_ob in
        let q' = parsed_ok unsupported (p.parse new) is_nb in
        Outcome-then Back (skeleton_from p ob lay_raw) _ (skeleton_from-Ends ob lay_raw)
          λ ((skel, m), lay) e1.
            Outcome-then Back (concat_ranges nb (stage1a_ranges nb)) _
              (concat_ranges-Ends nb (stage1a_ranges nb))
              λ s1a_new n1.
                Outcome-then Back (concat_ranges ob (stage1a_ranges ob)) _
                  (concat_ranges-Ends ob (stage1a_ranges ob))
                  λ s1a_old e2.
                    let (a_new_bytes, a_new_le) = new_tables s1a_new q' (inl n1) in
                    let (a_old_bytes, a_old_le) = old_tables s1a_old q (inl e2) in
                    let (s1a, made_a, body_a) =
                      plain_diff-IsBody s1a_old s1a_new (omega arith) (omega arith) a_old_bytes
                        a_new_bytes in
                    rw made_a (
                      Outcome-then Back (predicted_blobs p ob skel m lay s1a_new) _
                        (predicted_blobs-Ends ob skel m lay s1a_new)
                        λ (skel1, (blobs, offs)) e4.
                          Outcome-then Back (concat_ranges nb (stage1b_ranges nb)) _
                            (concat_ranges-Ends nb (stage1b_ranges nb))
                            λ s1b_new n2.
                              let (b_new_bytes, b_new_le) = new_tables s1b_new q' (inr n2) in
                              let (b_old_bytes, b_old_le) =
                                predicted_blobs-bytes ob skel skel1 m lay s1a_new blobs offs e4 in
                              let (s1b, made_b, body_b) =
                                plain_diff-IsBody blobs s1b_new (omega arith) b_old_le b_old_bytes
                                  b_new_bytes in
                              rw made_b (
                                Outcome-then Back (predicted_whole p ob skel1 m lay offs s1b_new) _
                                  (predicted_whole-Ends ob skel1 m lay offs s1b_new)
                                  λ pred e6.
                                    Outcome-bind (λ s2. apply_correction pred s2 ≡ ok new) Back
                                      (encode_correction pred new) _ (corrected pred new small)
                                      λ s2 e7.
                                        apply_go_amd64-body_of p old h ob lay_raw s1a_new s1a
                                          s1b_new s1b (p.hash_of pred) s2
                                          (parsed_by unsupported not_go (p.parse old) is_ob)
                                          (omega arith) (omega arith) (omega arith)
                                          (omega (arith, body_a.short)) (omega arith) (omega arith)
                                          (omega (arith, body_b.short)) (right.digests pred)
                                        ∙ apply_with_lem p ob skel skel1 m lay offs lay_raw s1a_old
                                            s1a_new s1a blobs s1b_new s1b pred s2 new e1 e2
                                            body_a.patched e4 body_b.patched e6 e7))

    -- For parts that AreParts describes, two files below 2^32 bytes:
    -- encodeGoAMD64 ends, and where it makes a body, applyGoAMD64 of that body to the old file, with a
    -- header that names the new file's size, gives the new file.
    pub apply_go_amd64-encode_go_amd64 :
        Outcome (λ body. apply_go_amd64 p old body h ≡ ok new) (encode_go_amd64 p old new)
    unfolding encode_go_amd64 Back
    apply_go_amd64-encode_go_amd64 =
        Outcome-then Back (or_error unsupported (p.parse old)) _
          (or_error-Ends unsupported (p.parse old) (right.parse_ends old))
          λ ob is_ob.
            Outcome-then Back (or_error unsupported (p.parse new)) _
              (or_error-Ends unsupported (p.parse new) (right.parse_ends new))
              λ nb is_nb.
                Outcome-then Back (p.build_layout ob nb) _ (right.build_ends ob nb) λ lay_raw made.
                  encode_with-Back ob nb lay_raw is_ob is_nb (right.layout_small ob nb lay_raw made)
