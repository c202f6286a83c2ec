-- ===== src/Tests/Go127.antt =====
-- The body of the Go-aware transform, over files whose tables are five bytes.
use go_binsync.Prelude.{
  ℕ, ◌^◌, ◌≤◌, ◌<◌, ◌≡◌, ◌≢◌, refl, sym, ◌⊎◌, inl, inr, Bool, true, false, List, [], ◌∷◌, Result,
  ok, err, stuck, Outcome, length, replicate, leb, arith,
}
use mathlib.Core.Path.{subst}
use go_binsync.Delta.Errors.{Error, unsupported}
use go_binsync.Delta.Container.{Header}
use go_binsync.Delta.Plain.Runs.Steps.{AreBytes}
use go_binsync.Delta.Go127.{
  Bin, Parts, stage1a_ranges, stage1b_ranges, concat_ranges, encode_go_amd64, apply_go_amd64,
}
use go_binsync.Delta.Go127.RoundTrip.{AreParts, apply_go_amd64-encode_go_amd64}

abbrev bin : List ℕ → List ℕ → Bin (List ℕ)
bin pcln f = record {
  pcln = pcln;
  funcnametab = record { off = 0; len = 1 };
  cutab = record { off = 1; len = 1 };
  filetab = record { off = 2; len = 1 };
  pctab = record { off = 3; len = 1 };
  gofunc = record { off = 4; len = 1 };
  rest = f;
}

abbrev parse_long : Bool → List ℕ → Result Error (Bin (List ℕ))
parse_long true f = ok (bin (1 ∷ 2 ∷ 3 ∷ 4 ∷ 5 ∷ []) f)
parse_long false f = err unsupported

abbrev parts : Parts
parts = record {
  R = List ℕ;
  Layout = Unit;
  Match = Unit;
  Offsets = Unit;
  parse = λ f. parse_long (leb 5 (length f)) f;
  build_layout = λ ob nb. ok (7 ∷ []);
  decode_layout = λ raw ob. ok tt;
  skeleton = λ ob l. ok (bin (replicate 5 0) [], tt);
  predict_blobs = λ ob s m l. ok (9 ∷ 4 ∷ 5 ∷ [], tt);
  predict_whole = λ ob s m l o. ok s.pcln;
  hash_of = λ b. replicate 32 0;
}

same_value {ℓ} : {A : Type ℓ} {x y : A} → ◌≡◌ {A = Result Error A} (ok x) (ok y) → x ≡ y
same_value h = cc

parse_long-tables :
    (w : Bool) (f : List ℕ) (b : Bin (List ℕ)) (t : List ℕ)
    → w ≡ leb 5 (length f)
    → parse_long w f ≡ ok b
    → (concat_ranges b (stage1a_ranges b) ≡ ok t) ⊎ (concat_ranges b (stage1b_ranges b) ≡ ok t)
    → AreBytes t × (length t ≤ length f)
unfolding concat_ranges
parse_long-tables true f b t long is_b (inl e) =
    let found : 1 ∷ 3 ∷ [] ≡ t = same_value (
      subst (λ (x : Bin (List ℕ)). concat_ranges x (stage1a_ranges x) ≡ ok t)
        (sym (same_value is_b)) e) in
    subst (λ (x : List ℕ). AreBytes x × (length x ≤ length f)) found (ground arith)
parse_long-tables true f b t long is_b (inr e) =
    let found : 2 ∷ 4 ∷ 5 ∷ [] ≡ t = same_value (
      subst (λ (x : Bin (List ℕ)). concat_ranges x (stage1b_ranges x) ≡ ok t)
        (sym (same_value is_b)) e) in
    subst (λ (x : List ℕ). AreBytes x × (length x ≤ length f)) found (ground arith)
parse_long-tables false f b t long is_b e = absurd cc

parse_long-ends : (w : Bool) (f : List ℕ) → parse_long w f ≢ stuck
parse_long-ends true f e = cc
parse_long-ends false f e = cc

parts-AreParts : AreParts parts
parts-AreParts = record {
  parse_ends = λ f. parse_long-ends (leb 5 (length f)) f;
  build_ends = λ ob nb e. cc;
  decode_ends = λ raw ob e. cc;
  skeleton_ends = λ ob l e. cc;
  blobs_end = λ ob s m l e. cc;
  whole_ends = λ ob s m l o e. cc;
  tables = λ f b t. parse_long-tables (leb 5 (length f)) f b t refl;
  layout_small =
      λ ob nb raw e. subst (λ (r : List ℕ). length r < 2 ^ 62) (same_value e) (omega arith);
  blobs_bytes = λ ob s m l t o e.
      subst (λ (r : List ℕ × Unit {0}). AreBytes r.0 × (length r.0 < 2 ^ 32)) (same_value e)
        (omega arith);
  digests = λ b. refl;
}

abbrev old_file : List ℕ
old_file = 1 ∷ 2 ∷ 3 ∷ 4 ∷ 5 ∷ 6 ∷ []

abbrev new_file : List ℕ
new_file = 1 ∷ 2 ∷ 3 ∷ 8 ∷ 5 ∷ []

abbrev header : Header
header = record {
  transform = 1;
  flags = 0;
  source = [];
  target = [];
  old_size = 6;
  new_size = 5;
  frames = [];
  body_off = 0;
}

apply_go_amd64-encode_go_amd64_example :
    Outcome
      (λ body. apply_go_amd64 parts old_file body header ≡ ok new_file)
      (encode_go_amd64 parts old_file new_file)
apply_go_amd64-encode_go_amd64_example =
    apply_go_amd64-encode_go_amd64 parts parts-AreParts old_file new_file header refl (omega arith)
      (omega arith)
