-- ===== src/Delta/Go127.antt =====
-- delta/go127.go: the body of the Go-aware transform, encodeGoAMD64 and applyGoAMD64, over the tables
-- of a pclntab (stage1aRanges, stage1bRanges, concatRanges and fillTables of delta/layout.go). What
-- makes and reads a layout and what predicts from it are arguments, of which nothing is supposed.
pub mod RoundTrip
use go_binsync.Prelude.{
  ℕ, ◌+◌, ◌%◌, ◌^◌, List, [], ◌∷◌, ◌++◌, Bool, ◌&&◌, not, Option, none, some, Result, ok, err,
  panic, stuck, ◌>>=◌, length, take, drop, slice, overwrite, leb, ◌==◌, if◌then◌else◌,
}
use go_binsync.Int64.{add64}
use go_binsync.Release.Hash.{Hash, bytes_eq}
use go_binsync.Delta.Errors.{Error, unsupported, not_go, tables_wrong, base_differs}
use go_binsync.Delta.Buf.{Rbuf, reading}
use go_binsync.Delta.Buf
use go_binsync.Delta.Buf.Put
use go_binsync.Delta.Container.{Header}
use go_binsync.Delta.Codec.{Options}
use go_binsync.Delta.Correct.Encode.{encode_correction}
use go_binsync.Delta.Correct.Apply.{apply_correction}
use go_binsync.Delta.Plain.Encode.{plain_diff}
use go_binsync.Delta.Plain.Patch.{plain_patch}

pub record Range : Type 0 where
  pub off : ℕ
  pub len : ℕ

-- uint64s, whose sum wraps.
unfoldable pub range_end : Range → ℕ
unfolding add64
range_end r = add64 r.off r.len

unfoldable pub sum_lens : ℕ → List Range → ℕ
unfolding add64
sum_lens n [] = n
sum_lens n (r ∷ rs) = sum_lens (add64 n r.len) rs

-- The tables of a parsed pclntab that the transform sends, and the rest of a Bin.
pub record Bin (R : Type 0) : Type 0 where
  pub pcln : List ℕ
  pub funcnametab : Range
  pub cutab : Range
  pub filetab : Range
  pub pctab : Range
  pub gofunc : Range
  pub rest : R

module _ {R : Type 0} where
  abbrev pub stage1a_ranges : Bin R → List Range
  stage1a_ranges b = b.funcnametab ∷ b.filetab ∷ []

  abbrev pub stage1b_ranges : Bin R → List Range
  stage1b_ranges b = b.cutab ∷ b.pctab ∷ b.gofunc ∷ []

  -- A slice expression; the section's bytes have no room behind them.
  unfoldable pub table : Bin R → Range → Result Error (List ℕ)
  unfolding range_end
  table b r =
      if leb r.off (range_end r) && leb (range_end r) (length b.pcln)
      then ok (slice r.off (range_end r) b.pcln)
      else panic

  unfoldable pub concat_ranges : Bin R → List Range → Result Error (List ℕ)
  unfolding table
  concat_ranges b [] = ok []
  concat_ranges b (r ∷ rs) = do t ← table b r; more ← concat_ranges b rs; ok (t ++ more)

  -- The second loop: `o` bytes of `content` are copied.
  unfoldable pub copy_tables : Bin R → List Range → List ℕ → ℕ → Result Error (Bin R)
  unfolding table add64
  copy_tables b [] content o = ok b
  copy_tables b (r ∷ rs) content o = do
    _ ← table b r
    if leb o (add64 o r.len) && leb (add64 o r.len) (length content)
        then copy_tables
            (record b { pcln = overwrite r.off (slice o (add64 o r.len) content) b.pcln }) rs
            content (add64 o r.len)
        else panic

  unfoldable pub fill_tables : Bin R → List Range → List ℕ → Result Error (Bin R)
  unfolding sum_lens copy_tables
  fill_tables b ranges content =
      if not (length content == sum_lens 0 ranges)
      then err tables_wrong
      else copy_tables b ranges content 0

-- The code that the two functions call. `build_layout` stands for matchFuncs, buildMaps,
-- deriveOverrides and the layout's encode, and `skeleton` for the skeleton and its matches.
pub record Parts : Type 1 where
  pub R : Type 0
  pub Layout : Type 0
  pub Match : Type 0
  pub Offsets : Type 0
  pub parse : List ℕ → Result Error (Bin R)
  pub build_layout : Bin R → Bin R → Result Error (List ℕ)
  pub decode_layout : List ℕ → Bin R → Result Error Layout
  pub skeleton : Bin R → Layout → Result Error (Bin R × Match)
  -- blobPred: cutab, pctab and go:func.*, one behind the other, and the maps of their offsets.
  pub predict_blobs : Bin R → Bin R → Match → Layout → Result Error (List ℕ × Offsets)
  pub predict_whole : Bin R → Bin R → Match → Layout → Offsets → Result Error (List ℕ)
  pub hash_of : List ℕ → Hash

-- An error of gobin.Parse, as the encoder and as the decoder return it.
abbrev pub or_error {ℓ} : {A : Type ℓ} → Error → Result Error A → Result Error A
or_error e (ok a) = ok a
or_error e (err x) = err e
or_error e panic = panic
or_error e stuck = stuck

module _ (p : Parts) where
  unfoldable pub skeleton_from : Bin p.R → List ℕ → Result Error ((Bin p.R × p.Match) × p.Layout)
  skeleton_from ob raw = do l ← p.decode_layout raw ob; s ← p.skeleton ob l; ok (s, l)

  -- The skeleton with the tables that are filled in, and the prediction over it.
  unfoldable pub predicted_blobs :
      Bin p.R
      → Bin p.R
      → p.Match
      → p.Layout
      → List ℕ
      → Result Error (Bin p.R × (List ℕ × p.Offsets))
  unfolding fill_tables
  predicted_blobs ob skel m l s1a = do
    skel1 ← fill_tables skel (stage1a_ranges skel) s1a
    bp ← p.predict_blobs ob skel1 m l
    ok (skel1, bp)

  unfoldable pub predicted_whole :
      Bin p.R → Bin p.R → p.Match → p.Layout → p.Offsets → List ℕ → Result Error (List ℕ)
  unfolding fill_tables
  predicted_whole ob skel1 m l offs s1b = do
    skel2 ← fill_tables skel1 (stage1b_ranges skel1) s1b
    p.predict_whole ob skel2 m l offs

  -- The writes at the end of encodeGoAMD64.
  unfoldable pub body_of : List ℕ → List ℕ → List ℕ → List ℕ → List ℕ → List ℕ → List ℕ → List ℕ
  body_of lay_raw s1a_new s1a s1b_new s1b sum s2 =
      let w1 = Put.bytes [] lay_raw in
      let w2 = Put.bytes (Put.u w1 (length s1a_new)) s1a in
      let w3 = Put.bytes (Put.u w2 (length s1b_new)) s1b in Put.raw (Put.raw w3 sum) s2

  -- From the layout on, the encoder runs what the decoder runs.
  unfoldable pub encode_with : Bin p.R → Bin p.R → List ℕ → List ℕ → Result Error (List ℕ)
  unfolding skeleton_from predicted_blobs predicted_whole body_of concat_ranges
  encode_with ob nb new lay_raw = do
    ((skel, m), lay) ← skeleton_from ob lay_raw
    s1a_new ← concat_ranges nb (stage1a_ranges nb)
    s1a_old ← concat_ranges ob (stage1a_ranges ob)
    s1a ← plain_diff s1a_old s1a_new
    (skel1, (blobs, offs)) ← predicted_blobs ob skel m lay s1a_new
    s1b_new ← concat_ranges nb (stage1b_ranges nb)
    s1b ← plain_diff blobs s1b_new
    pred ← predicted_whole ob skel1 m lay offs s1b_new
    s2 ← encode_correction pred new
    ok (body_of lay_raw s1a_new s1a s1b_new s1b (p.hash_of pred) s2)

  unfoldable pub encode_go_amd64 : List ℕ → List ℕ → Result Error (List ℕ)
  unfolding encode_with
  encode_go_amd64 old new = do
    ob ← or_error unsupported (p.parse old)
    nb ← or_error unsupported (p.parse new)
    lay_raw ← p.build_layout ob nb
    encode_with ob nb new lay_raw

  abbrev pub unless_failed {ℓ} : {A : Type ℓ} → Option Error → Result Error A → Result Error A
  unless_failed none r = r
  unless_failed (some e) r = err e

  -- Behind the reads: `s2` is what the buffer still holds.
  unfoldable pub apply_with :
      Bin p.R → List ℕ → ℕ → List ℕ → ℕ → List ℕ → Hash → List ℕ → Result Error (List ℕ)
  unfolding skeleton_from predicted_blobs predicted_whole concat_ranges bytes_eq
  apply_with ob lay_raw s1a_len s1a s1b_len s1b sum s2 = do
    ((skel, m), lay) ← skeleton_from ob lay_raw
    s1a_old ← concat_ranges ob (stage1a_ranges ob)
    s1a_new ← plain_patch s1a_old s1a s1a_len
    (skel1, (blobs, offs)) ← predicted_blobs ob skel m lay s1a_new
    s1b_new ← plain_patch blobs s1b s1b_len
    pred ← predicted_whole ob skel1 m lay offs s1b_new
    if not (bytes_eq (p.hash_of pred) sum) then err base_differs else apply_correction pred s2

  unfoldable pub apply_go_amd64 : List ℕ → List ℕ → Header → Result Error (List ℕ)
  unfolding apply_with
  apply_go_amd64 old body h = do
    ob ← or_error not_go (p.parse old)
    let (lay_raw, r1) = Buf.bytes (reading body)
    let (s1a_len, r2) = Buf.un r1 h.new_size
    let (s1a, r3) = Buf.bytes r2
    let (s1b_len, r4) = Buf.un r3 h.new_size
    let (s1b, r5) = Buf.bytes r4
    let (sum, r6) = Buf.take_bytes r5 32
    unless_failed r6.error (apply_with ob lay_raw s1a_len s1a s1b_len s1b sum r6.b)
