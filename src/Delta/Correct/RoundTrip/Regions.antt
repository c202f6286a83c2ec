-- ===== src/Delta/Correct/RoundTrip/Regions.antt =====
-- One region, decoded over the buffer that the regions before it have left.
use go_binsync.Prelude.{
  ℕ, ◌+◌, ◌-◌, ◌*◌, ◌/◌, ◌^◌, ◌≤◌, ◌<◌, ◌≡◌, refl, ap, ◌∙◌, sym, List, ◌++◌, ok, length, take, drop,
  slice, overwrite, arith, length-append, length-slice, take-append, drop-append,
}
use go_binsync.Varint.{put_uvarint}
use go_binsync.Delta.Buf.Laws.{un-put}
use go_binsync.Delta.Lz.Emit.{emit}
use go_binsync.Delta.Lz.Apply
use go_binsync.Delta.Lz.RoundTrip.{apply-emit}
use go_binsync.Delta.Correct.Encode.{slack_at}
use go_binsync.Delta.Correct.Apply.{Place, copy_literals, run_ops, region_at, region}
use go_binsync.Delta.Correct.RoundTrip.Patched.{
  Agree, patched, length-patched, patched-Agree, drop-patched, overwrite-patched,
}
use go_binsync.Delta.Correct.RoundTrip.Bounds.{slack_fits}

region-reads :
    (p : Place) (gap v : ℕ) (rest : List ℕ)
    → p.ctrl ≡ put_uvarint gap ++ (put_uvarint v ++ rest)
    → length p.buf < 2 ^ 32
    → gap ≤ length p.buf
    → v ≤ length p.buf * 2 + 1
    → region p ≡ region_at (record p { ctrl = rest }) gap v
unfolding region
region-reads p gap v rest e small h k = rw e (
    rw (un-put gap (length p.buf) (put_uvarint v ++ rest) (omega arith) h)
      (rw (un-put v (length p.buf * 2 + 1) rest (omega arith) k)))

region_at-literals :
    (p : Place) (gap span : ℕ)
    → p.pos + gap + span ≤ length p.buf
    → region_at p gap (span * 2) ≡ copy_literals (record p { pos = p.pos + gap }) span
unfolding region_at
region_at-literals p gap span h = rw half (ground arith)
  where
    half : span * 2 / 2 ≡ span
    half = omega arith

region_at-ops :
    (p : Place) (gap span : ℕ)
    → p.pos + gap + span ≤ length p.buf
    → region_at p gap (span * 2 + 1) ≡ run_ops (record p { pos = p.pos + gap }) span
unfolding region_at
region_at-ops p gap span h = rw half (ground arith)
  where
    half : (span * 2 + 1) / 2 ≡ span
    half = omega arith

copy_literals-append :
    (p : Place) (lits rest : List ℕ)
    → p.lit ≡ lits ++ rest
    → copy_literals p (length lits)
      ≡ ok (record p { buf = overwrite p.pos lits p.buf; lit = rest; pos = p.pos + length lits })
unfolding copy_literals
copy_literals-append p lits rest e = rw e (
    ground (
      arith,
      length-append lits rest,
      take-append lits rest (length lits),
      drop-append lits rest (length lits),
    ))

Place-path :
    {c l buf buf' : List ℕ} {at at' : ℕ}
    → buf ≡ buf'
    → at ≡ at'
    → ◌≡◌ {A = Place}
        (record { ctrl = c; lit = l; buf = buf; pos = at })
        (record { ctrl = c; lit = l; buf = buf'; pos = at' })
Place-path {c} {l} p q = λ i. record { ctrl = c; lit = l; buf = p i; pos = q i }

run_ops-ok :
    (p : Place) (span : ℕ) (window : List ℕ) (t : Apply.State)
    → slice p.pos (p.pos + span + slack_at (p.pos + span) (length p.buf)) p.buf ≡ window
    → Apply.apply window p.ctrl p.lit span ≡ ok t
    → run_ops p span
      ≡ ok (record {
        ctrl = t.ctrl;
        lit = t.lit;
        buf = overwrite p.pos t.out p.buf;
        pos = p.pos + span;
      })
unfolding run_ops
run_ops-ok p span window t e h = rw (e, h)

-- Before the region that starts behind `e`.
abbrev pub before : List ℕ → List ℕ → ℕ → List ℕ → List ℕ → Place
before pred want e ctrl lit = record { ctrl = ctrl; lit = lit; buf = patched pred want e; pos = e }

module _ (pred want : List ℕ) (same : length pred ≡ length want) (small : length want < 2 ^ 32)
    (last s e : ℕ) (le : last ≤ s) (lt : s < e) (fits : e ≤ length want)
    (agree : Agree pred want last s) where
  pub size : length (slice s e want) ≡ e - s
  size = length-slice s e want (omega arith) fits

  place : last + (s - last) ≡ s
  place = omega arith

  len : length (patched pred want last) ≡ length want
  len = length-patched pred want same last (omega arith)

  -- The gap takes the place to the start of the region.
  moved :
      (ctrl lit : List ℕ)
      → ◌≡◌ {A = Place}
          (record (before pred want last ctrl lit) { pos = last + (s - last) })
          (before pred want s ctrl lit)
  moved ctrl lit = Place-path (patched-Agree pred want same last s le (omega arith) agree) place

  written : overwrite s (slice s e want) (patched pred want s) ≡ patched pred want e
  written = overwrite-patched pred want same s e (omega arith) fits

  pub literal_region :
      (crest lrest : List ℕ)
      → region (
          before pred want last
            (put_uvarint (s - last) ++ (put_uvarint ((e - s) * 2) ++ crest))
            (slice s e want ++ lrest))
        ≡ ok (before pred want e crest lrest)
  literal_region crest lrest =
      region-reads _ (s - last) ((e - s) * 2) crest refl (omega (arith, len)) (omega (arith, len))
        (omega (arith, len))
      ∙ region_at-literals (before pred want last crest (slice s e want ++ lrest)) (s - last)
          (e - s) (omega (arith, len))
      ∙ ap (λ t. copy_literals t (e - s)) (moved crest (slice s e want ++ lrest))
      ∙ ap (copy_literals (before pred want s crest (slice s e want ++ lrest))) (sym size)
      ∙ copy_literals-append (before pred want s crest (slice s e want ++ lrest)) (slice s e want)
          lrest refl
      ∙ ap ok (Place-path written (omega (arith, size)))

  -- The window of the buffer that a region's copies read is the prediction's own.
  window :
      slice s
        (s + (e - s) + slack_at (s + (e - s)) (length (patched pred want s)))
        (patched pred want s)
      ≡ slice s (e + slack_at e (length pred)) pred
  window =
      ap (λ (t : ℕ). slice s (t + slack_at t (length (patched pred want s))) (patched pred want s))
        {y = e} (omega arith)
      ∙ ap (λ (t : ℕ). slice s (e + slack_at e t) (patched pred want s)) {y = length pred}
          (omega (arith, length-patched pred want same s (omega arith)))
      ∙ ap (take (e + slack_at e (length pred) - s)) (drop-patched pred want same s (omega arith))

  pub source_size : length (slice s (e + slack_at e (length pred)) pred) < 2 ^ 32
  source_size = omega (
    arith,
    slack_fits e (length pred) (omega arith),
    length-slice s (e + slack_at e (length pred)) pred (omega arith),
  )

  pub ops_region :
      (ctrl lit crest lrest : List ℕ)
      → let o = emit (slice s (e + slack_at e (length pred)) pred) (slice s e want) ctrl lit in
        region (
          before pred want last
            (put_uvarint (s - last)
              ++ (put_uvarint ((e - s) * 2 + 1) ++ (drop (length ctrl) o.ctrl ++ crest)))
            (drop (length lit) o.lit ++ lrest))
        ≡ ok (before pred want e crest lrest)
  ops_region ctrl lit crest lrest =
      let src = slice s (e + slack_at e (length pred)) pred in
      let o = emit src (slice s e want) ctrl lit in
      let run =
        apply-emit src (slice s e want) ctrl lit crest lrest (omega (arith, source_size))
          (omega (arith, size)) in
      region-reads _ (s - last) ((e - s) * 2 + 1) _ refl (omega (arith, len)) (omega (arith, len))
        (omega (arith, len))
      ∙ region_at-ops (before pred want last _ _) (s - last) (e - s) (omega (arith, len))
      ∙ ap (λ t. run_ops t (e - s)) (moved _ _)
      ∙ run_ops-ok
          (before pred want s (drop (length ctrl) o.ctrl ++ crest)
            (drop (length lit) o.lit ++ lrest))
          (e - s) src _ window
          (ap
              (Apply.apply src (drop (length ctrl) o.ctrl ++ crest)
                (drop (length lit) o.lit ++ lrest))
              (sym size)
            ∙ run.2.1)
      ∙ ap ok (Place-path written (omega arith))
