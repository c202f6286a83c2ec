-- ===== src/Delta/Correct/RoundTrip/Loop.antt =====
-- All regions of a file, written by encodeCorrection's loop and decoded by applyCorrection's.
use go_binsync.Prelude.{
  ℕ, zero, suc, ◌+◌, ◌*◌, ◌^◌, ◌≤◌, ◌<◌, ◌≡◌, refl, ap, ◌∙◌, sym, List, [], ◌++◌, ok, length, arith,
  inl, inr, Bool-cases, lt→ltb, false, ◌==◌, ==_iff, length-append, append_assoc, append-nil,
}
use native.Mathlib.Decide.{ℕ_discrete, dec_lt}
use go_binsync.Delta.Lz.Match.{at}
use go_binsync.Delta.Correct.Encode.{Regions, put_region, grow, regions}
use go_binsync.Delta.Correct.Apply.{region, region_loop}
use go_binsync.Delta.Correct.RoundTrip.Patched.{Agree}
use go_binsync.Delta.Correct.RoundTrip.Bounds.{grow_bounds}
use go_binsync.Delta.Correct.RoundTrip.Regions.{before}
use go_binsync.Delta.Correct.RoundTrip.Coding.{IsRegion, put_region-IsRegion}

-- The streams stay in proportion to the file.
pub record IsFit (r : Regions) : Type 0 where
  pub ctrl_fits : length r.ctrl ≤ 20 * r.count + r.prev_end
  pub lit_fits : length r.lit ≤ r.prev_end
  pub count_fits : r.count ≤ r.prev_end

-- The regions `r'` are `r` and the rest of the file's.
pub record Extends (pred want : List ℕ) (r r' : Regions) : Type 0 where
  pub ctrl : List ℕ
  pub lit : List ℕ
  pub rounds : ℕ
  pub ctrl_eq : r'.ctrl ≡ r.ctrl ++ ctrl
  pub lit_eq : r'.lit ≡ r.lit ++ lit
  pub counted : r'.count ≡ r.count + rounds
  pub decodes :
      (crest lrest : List ℕ)
      → region_loop rounds (before pred want r.prev_end (ctrl ++ crest) (lit ++ lrest))
        ≡ ok (before pred want r'.prev_end crest lrest)
  pub agree : Agree pred want r'.prev_end (length want)
  pub in_file : r'.prev_end ≤ length want
  pub fit : IsFit r'

Extends-self :
    (pred want : List ℕ) (r : Regions)
    → Agree pred want r.prev_end (length want)
    → r.prev_end ≤ length want
    → IsFit r
    → Extends pred want r r
Extends-self pred want r a h f = record {
  ctrl = [];
  lit = [];
  rounds = 0;
  ctrl_eq = sym (append-nil r.ctrl);
  lit_eq = sym (append-nil r.lit);
  counted = omega arith;
  decodes = λ crest lrest. unfold region_loop in refl;
  agree = a;
  in_file = h;
  fit = f;
}

region_loop-suc :
    (n : ℕ) (pred want : List ℕ) (a b : ℕ) (c l crest lrest : List ℕ)
    → region (before pred want a c l) ≡ ok (before pred want b crest lrest)
    → region_loop (suc n) (before pred want a c l) ≡ region_loop n (before pred want b crest lrest)
unfolding region_loop
region_loop-suc n pred want a b c l crest lrest e = rw e

Extends-region :
    (pred want : List ℕ) (s e : ℕ) (r q r' : Regions)
    → IsRegion pred want s e r q
    → Extends pred want q r'
    → Extends pred want r r'
Extends-region pred want s e r q r' one more = record {
  ctrl = one.ctrl ++ more.ctrl;
  lit = one.lit ++ more.lit;
  rounds = suc more.rounds;
  ctrl_eq =
      more.ctrl_eq ∙ ap (λ t. t ++ more.ctrl) one.ctrl_eq ∙ append_assoc r.ctrl one.ctrl more.ctrl;
  lit_eq = more.lit_eq ∙ ap (λ t. t ++ more.lit) one.lit_eq ∙ append_assoc r.lit one.lit more.lit;
  counted = omega (arith, one.counted, more.counted);
  decodes = λ crest lrest.
      ap
        (λ t.
          region_loop (suc more.rounds)
            (before pred want r.prev_end t ((one.lit ++ more.lit) ++ lrest)))
        (append_assoc one.ctrl more.ctrl crest)
      ∙ ap
          (λ t.
            region_loop (suc more.rounds)
              (before pred want r.prev_end (one.ctrl ++ (more.ctrl ++ crest)) t))
          (append_assoc one.lit more.lit lrest)
      ∙ region_loop-suc more.rounds pred want r.prev_end e _ _ _ _
          (one.decodes (more.ctrl ++ crest) (more.lit ++ lrest))
      ∙ ap
          (λ (t : ℕ).
            region_loop more.rounds (before pred want t (more.ctrl ++ crest) (more.lit ++ lrest)))
          (sym one.ends)
      ∙ more.decodes crest lrest;
  agree = more.agree;
  in_file = more.in_file;
  fit = more.fit;
}

IsRegion-IsFit :
    (pred want : List ℕ) (s e : ℕ) (r q : Regions)
    → IsRegion pred want s e r q
    → r.prev_end ≤ s
    → s < e
    → IsFit r
    → IsFit q
IsRegion-IsFit pred want s e r q one le lt f = record {
  ctrl_fits = omega (
    arith,
    ap length one.ctrl_eq,
    length-append r.ctrl one.ctrl,
    one.counted,
    one.ends,
    one.short_ctrl,
    f.ctrl_fits,
  );
  lit_fits = omega (
    arith,
    ap length one.lit_eq,
    length-append r.lit one.lit,
    one.ends,
    one.short_lit,
    f.lit_fits,
  );
  count_fits = omega (arith, one.counted, one.ends, f.count_fits);
}

Agree-suc :
    (pred want : List ℕ) (a s : ℕ)
    → Agree pred want a s
    → at pred s ≡ at want s
    → Agree pred want a (s + 1)
Agree-suc pred want a s f e i h k = elim (ℕ_discrete i s) [
  | yes eq ↦ ap (at pred) eq ∙ e ∙ ap (at want) (sym eq)
  | no ne ↦ f i h (omega arith)
]

module _ (fuel : ℕ) (pred want : List ℕ) (s : ℕ) (r : Regions) (more : s < length want) where
  abbrev end : ℕ
  end = grow (length want) pred want (s + 1)

  regions_same :
      at pred s ≡ at want s → regions (suc fuel) pred want s r ≡ regions fuel pred want (s + 1) r
  unfolding regions
  regions_same h = rw (lt→ltb s (length want) more, (==_iff (at pred s) (at want s)).1 h)

  regions_differ :
      (at pred s == at want s) ≡ false
      → regions (suc fuel) pred want s r ≡ regions fuel pred want end (put_region pred want s end r)
  unfolding regions
  regions_differ h = rw (lt→ltb s (length want) more, h)

regions_end :
    (fuel : ℕ) (pred want : List ℕ) (s : ℕ) (r : Regions)
    → length want ≤ s
    → regions fuel pred want s r ≡ r
unfolding regions
regions_end zero pred want s r h = refl
regions_end (suc fuel) pred want s r h = ground arith

module _ (pred want : List ℕ) (same : length pred ≡ length want)
    (small : length want < 2 ^ 32) where
  pub regions-Extends :
      (fuel s : ℕ) (r : Regions)
      → length want ≤ s + fuel
      → s ≤ length want
      → r.prev_end ≤ s
      → Agree pred want r.prev_end s
      → IsFit r
      → Extends pred want r (regions fuel pred want s r)
  regions-Extends zero s r hf hs le a f =
      rw (regions_end zero pred want s r (omega arith))
        (Extends-self pred want r (λ i h k. a i h (omega arith)) (omega arith) f)
  regions-Extends (suc fuel) s r hf hs le a f = elim (dec_lt s (length want)) [
    | no end ↦
        rw (regions_end (suc fuel) pred want s r (omega arith))
          (Extends-self pred want r (λ i h k. a i h (omega arith)) (omega arith) f)
    | yes more ↦ elim (Bool-cases (at pred s == at want s)) [
      | inl eq ↦
          let e = (==_iff (at pred s) (at want s)).0 eq in
          rw (regions_same fuel pred want s r more e) (
            regions-Extends fuel (s + 1) r (omega arith) (omega arith) (omega arith)
              (Agree-suc pred want r.prev_end s a e) f)
      | inr ne ↦
          let e = end fuel pred want s r more in
          let b = grow_bounds (length want) pred want (s + 1) (omega arith) in
          let q = put_region pred want s e r in
          let one = put_region-IsRegion pred want same small r s e le (omega (arith, b.0)) b.1 a in
          rw (regions_differ fuel pred want s r more ne) (
            Extends-region pred want s e r q _ one (
              regions-Extends fuel e q (omega (arith, b.0)) b.1 (omega (arith, one.ends))
                (λ i h k. absurd (omega (arith, one.ends)))
                (IsRegion-IsFit pred want s e r q one le (omega (arith, b.0)) f)))
    ]
  ]
