-- ===== src/Delta/Go127/RoundTrip/Ends.antt =====
-- The steps of the transform over the tables end.
use go_binsync.Prelude.{
  ℕ, ◌≡◌, ◌≢◌, refl, true, false, Bool, List, [], ◌∷◌, ◌++◌, Result, ok, err, panic, stuck,
  if◌then◌else◌, >>=-Ends, slice, overwrite,
}
use go_binsync.Int64.{add64}
use go_binsync.Delta.Errors.{Error, tables_wrong}
use go_binsync.Delta.Go127.{Range, Bin, table, concat_ranges, copy_tables, fill_tables, or_error}

pub or_error-Ends {ℓ} :
    {A : Type ℓ} (e : Error) (r : Result Error A) → r ≢ stuck → or_error e r ≢ stuck
or_error-Ends e (ok a) h = λ x. cc
or_error-Ends e (err d) h = λ x. cc
or_error-Ends e panic h = λ x. cc
or_error-Ends e stuck h = absurd (h refl)

pub parsed_by {ℓ} :
    {A : Type ℓ} (d e : Error) (r : Result Error A) {a : A}
    → or_error d r ≡ ok a
    → or_error e r ≡ ok a
parsed_by d e (ok a) h = h
parsed_by d e (err x) h = cc
parsed_by d e panic h = h
parsed_by d e stuck h = h

pub parsed_ok {ℓ} :
    {A : Type ℓ} (d : Error) (r : Result Error A) {a : A} → or_error d r ≡ ok a → r ≡ ok a
parsed_ok d (ok a) h = h
parsed_ok d (err x) h = cc
parsed_ok d panic h = h
parsed_ok d stuck h = h

pub ok-Ends {ℓ} : {A : Type ℓ} (a : A) → ◌≢◌ {A = Result Error A} (ok a) stuck
ok-Ends a x = cc

pub err-Ends {ℓ} : {A : Type ℓ} (e : Error) → ◌≢◌ {A = Result Error A} (err e) stuck
err-Ends e x = cc

pub panic-Ends {ℓ} : {A : Type ℓ} → ◌≢◌ {A = Result Error A} panic stuck
panic-Ends x = cc

pub if-Ends {ℓ} :
    {A : Type ℓ} (b : Bool) (x y : Result Error A)
    → x ≢ stuck
    → y ≢ stuck
    → (if b then x else y) ≢ stuck
if-Ends true x y p q = p
if-Ends false x y p q = q

module _ {R : Type 0} where
  pub table-Ends : (b : Bin R) (r : Range) → table b r ≢ stuck
  unfolding table
  table-Ends b r = if-Ends _ (ok _) panic (ok-Ends _) panic-Ends

  pub concat_ranges-Ends : (b : Bin R) (rs : List Range) → concat_ranges b rs ≢ stuck
  unfolding concat_ranges
  concat_ranges-Ends b [] = ok-Ends []
  concat_ranges-Ends b (r ∷ rs) =
      >>=-Ends (table b r) _ (table-Ends b r)
        (λ t. >>=-Ends (concat_ranges b rs) _ (concat_ranges-Ends b rs) (λ m. ok-Ends (t ++ m)))

  pub copy_tables-Ends :
      (b : Bin R) (rs : List Range) (content : List ℕ) (o : ℕ) → copy_tables b rs content o ≢ stuck
  unfolding copy_tables
  copy_tables-Ends b [] content o = ok-Ends b
  copy_tables-Ends b (r ∷ rs) content o = >>=-Ends (table b r) _ (table-Ends b r) (λ t.
      if-Ends _ _ panic
        (copy_tables-Ends
          (record b { pcln = overwrite r.off (slice o (add64 o r.len) content) b.pcln }) rs content
          (add64 o r.len))
        panic-Ends)

  pub fill_tables-Ends :
      (b : Bin R) (rs : List Range) (content : List ℕ) → fill_tables b rs content ≢ stuck
  unfolding fill_tables
  fill_tables-Ends b rs content =
      if-Ends _ (err tables_wrong) _ (err-Ends tables_wrong) (copy_tables-Ends b rs content 0)
