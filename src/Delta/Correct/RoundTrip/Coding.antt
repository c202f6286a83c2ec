-- ===== src/Delta/Correct/RoundTrip/Coding.antt =====
-- What encodeCorrection writes for one region.
use go_binsync.Prelude.{
  ℕ, ◌+◌, ◌-◌, ◌*◌, ◌^◌, ◌≤◌, ◌<◌, ◌≡◌, refl, ap, ◌∙◌, sym, List, [], ◌++◌, ok, length, drop, slice,
  arith, ltb, inl, inr, Bool-cases, ltb→lt, length-append, take-append-drop, append_assoc,
}
use go_binsync.Varint.{put_uvarint}
use go_binsync.Delta.Lz.Emit.{Streams, emit}
use go_binsync.Delta.Lz.RoundTrip.{apply-emit}
use go_binsync.Delta.Correct.Encode.{Regions, slack_at, put_region}
use go_binsync.Delta.Correct.Apply.{region}
use go_binsync.Delta.Correct.RoundTrip.Patched.{Agree}
use go_binsync.Delta.Correct.RoundTrip.Bounds.{length-put_uvarint}
use go_binsync.Delta.Correct.RoundTrip.Regions.{
  before, literal_region, ops_region, source_size, size,
}

-- The regions `r'` are `r` and one more, which decodes over what `r` leaves.
pub record IsRegion (pred want : List ℕ) (s e : ℕ) (r r' : Regions) : Type 0 where
  pub ctrl : List ℕ
  pub lit : List ℕ
  pub ctrl_eq : r'.ctrl ≡ r.ctrl ++ ctrl
  pub lit_eq : r'.lit ≡ r.lit ++ lit
  pub counted : r'.count ≡ r.count + 1
  pub ends : r'.prev_end ≡ e
  pub short_ctrl : length ctrl ≤ 20 + (e - s)
  pub short_lit : length lit ≤ e - s
  pub decodes :
      (crest lrest : List ℕ)
      → region (before pred want r.prev_end (ctrl ++ crest) (lit ++ lrest))
        ≡ ok (before pred want e crest lrest)

module _ (pred want : List ℕ) (same : length pred ≡ length want) (small : length want < 2 ^ 32)
    (r : Regions) (s e : ℕ) (le : r.prev_end ≤ s) (lt : s < e) (fits : e ≤ length want)
    (agree : Agree pred want r.prev_end s) where
  abbrev gap : List ℕ
  gap = put_uvarint (s - r.prev_end)

  abbrev header : ℕ → List ℕ
  header v = (r.ctrl ++ gap) ++ put_uvarint v

  abbrev coded : Streams
  coded =
      emit (slice s (e + slack_at e (length pred)) pred) (slice s e want) (header ((e - s) * 2 + 1))
        r.lit

  abbrev coded_size : ℕ
  coded_size = length coded.ctrl - length (r.ctrl ++ gap) + length coded.lit - length r.lit

  span : length (slice s e want) ≡ e - s
  span = size pred want same small r.prev_end s e le lt fits agree

  plain-IsRegion : IsRegion pred want s e r (record {
    streams = record { ctrl = header ((e - s) * 2); lit = r.lit ++ slice s e want };
    count = r.count + 1;
    prev_end = e;
  })
  plain-IsRegion = record {
    ctrl = gap ++ put_uvarint ((e - s) * 2);
    lit = slice s e want;
    ctrl_eq = append_assoc r.ctrl gap (put_uvarint ((e - s) * 2));
    lit_eq = refl;
    counted = refl;
    ends = refl;
    short_ctrl = omega (
      arith,
      length-append gap (put_uvarint ((e - s) * 2)),
      length-put_uvarint (s - r.prev_end),
      length-put_uvarint ((e - s) * 2),
    );
    short_lit = omega (arith, span);
    decodes = λ crest lrest.
        ap (λ t. region (before pred want r.prev_end t (slice s e want ++ lrest)))
          (append_assoc gap (put_uvarint ((e - s) * 2)) crest)
        ∙ literal_region pred want same small r.prev_end s e le lt fits agree crest lrest;
  }

  abbrev base : List ℕ
  base = header ((e - s) * 2 + 1)

  abbrev ops : List ℕ
  ops = drop (length base) coded.ctrl

  abbrev lits : List ℕ
  lits = drop (length r.lit) coded.lit

  src_short : length (slice s (e + slack_at e (length pred)) pred) < 2 ^ 32
  src_short = source_size pred want same small r.prev_end s e le lt fits agree

  coded_ctrl : coded.ctrl ≡ base ++ ops
  coded_ctrl =
      sym (take-append-drop (length base) coded.ctrl)
      ∙ ap (λ t. t ++ ops)
          (apply-emit (slice s (e + slack_at e (length pred)) pred) (slice s e want) base r.lit []
            [] src_short (omega (arith, span))).0

  coded_lit : coded.lit ≡ r.lit ++ lits
  coded_lit =
      sym (take-append-drop (length r.lit) coded.lit)
      ∙ ap (λ t. t ++ lits)
          (apply-emit (slice s (e + slack_at e (length pred)) pred) (slice s e want) base r.lit []
            [] src_short (omega (arith, span))).1

  abbrev size_header : ℕ
  size_header = length (put_uvarint ((e - s) * 2 + 1))

  ctrl_size : length coded.ctrl ≡ length (r.ctrl ++ gap) + size_header + length ops
  ctrl_size =
      ap length coded_ctrl
      ∙ omega (
        arith,
        length-append base ops,
        length-append (r.ctrl ++ gap) (put_uvarint ((e - s) * 2 + 1)),
      )

  lit_size : length coded.lit ≡ length r.lit + length lits
  lit_size = ap length coded_lit ∙ length-append r.lit lits

  coded-IsRegion :
      coded_size < e - s
      → IsRegion pred want s e r (record { streams = coded; count = r.count + 1; prev_end = e })
  coded-IsRegion short = record {
    ctrl = gap ++ (put_uvarint ((e - s) * 2 + 1) ++ ops);
    lit = lits;
    ctrl_eq =
        coded_ctrl
        ∙ append_assoc (r.ctrl ++ gap) (put_uvarint ((e - s) * 2 + 1)) ops
        ∙ append_assoc r.ctrl gap (put_uvarint ((e - s) * 2 + 1) ++ ops);
    lit_eq = coded_lit;
    counted = refl;
    ends = refl;
    short_ctrl = omega (
      arith,
      length-append gap (put_uvarint ((e - s) * 2 + 1) ++ ops),
      length-append (put_uvarint ((e - s) * 2 + 1)) ops,
      length-put_uvarint (s - r.prev_end),
      ctrl_size,
      lit_size,
    );
    short_lit = omega (arith, ctrl_size, lit_size);
    decodes = λ crest lrest.
        ap (λ t. region (before pred want r.prev_end t (lits ++ lrest)))
          (append_assoc gap (put_uvarint ((e - s) * 2 + 1) ++ ops) crest
            ∙ ap (λ t. gap ++ t) (append_assoc (put_uvarint ((e - s) * 2 + 1)) ops crest))
        ∙ ops_region pred want same small r.prev_end s e le lt fits agree base r.lit crest lrest;
  }

  pub put_region-IsRegion : IsRegion pred want s e r (put_region pred want s e r)
  unfolding put_region
  put_region-IsRegion = elim (Bool-cases (ltb coded_size (e - s))) [
    | inl short ↦ rw short (coded-IsRegion (ltb→lt coded_size (e - s) short))
    | inr long ↦ rw long plain-IsRegion
  ]
