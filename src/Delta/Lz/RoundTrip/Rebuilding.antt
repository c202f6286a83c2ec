-- ===== src/Delta/Lz/RoundTrip/Rebuilding.antt =====
-- The streams that rebuild a rest of the output, and the op that extends them.
use go_binsync.Prelude.{
  ℕ, zero, suc, ◌+◌, ◌-◌, ◌^◌, ◌≤◌, ◌<◌, ◌≡◌, ◌≢◌, refl, ap, ◌∙◌, sym, List, [], ◌++◌, append-nil,
  take-append-drop, take-length_le, ok, length, take, drop, slice, arith, length-drop, append_assoc,
  length-slice, take-slice,
}
use go_binsync.Varint.{put_uvarint, put_varint}
use go_binsync.Delta.Lz.Emit.{Streams, seek_from, put_op}
use go_binsync.Delta.Lz.Apply.{State, apply_loop}
use go_binsync.Delta.Lz.RoundTrip.Rounds.{apply_loop_step, round_copy, round_literals}

abbrev pub at_place : List ℕ → ℕ → ℕ → List ℕ → List ℕ → State
at_place dst cursor p ctrl lit = record {
  ctrl = ctrl;
  lit = lit;
  cursor = cursor;
  out = take p dst;
  left = length dst - p;
}

-- The streams `o'` are `o` and behind them what rebuilds `dst` from `p` on, with the source cursor
-- at `cursor`.
pub record Rebuilds (src dst : List ℕ) (cursor p : ℕ) (o o' : Streams) : Type 0 where
  pub ctrl : List ℕ
  pub lit : List ℕ
  pub last : ℕ
  pub ctrl_eq : o'.ctrl ≡ o.ctrl ++ ctrl
  pub lit_eq : o'.lit ≡ o.lit ++ lit
  pub runs :
      (n : ℕ) (crest lrest : List ℕ)
      → length dst - p ≤ n
      → apply_loop n src (at_place dst cursor p (ctrl ++ crest) (lit ++ lrest))
        ≡ ok (at_place dst last (length dst) crest lrest)

pub apply_loop_done : (n : ℕ) (src : List ℕ) (s : State) → s.left ≡ 0 → apply_loop n src s ≡ ok s
unfolding apply_loop
apply_loop_done zero src s h = ground arith
apply_loop_done (suc n) src s h = ground arith

pub State-path :
    {c l : List ℕ} {cursor : ℕ} {out out' : List ℕ} {left left' : ℕ}
    → out ≡ out'
    → left ≡ left'
    → ◌≡◌ {A = State}
        (record { ctrl = c; lit = l; cursor = cursor; out = out; left = left })
        (record { ctrl = c; lit = l; cursor = cursor; out = out'; left = left' })
State-path {c} {l} {cursor} p q =
    λ i. record { ctrl = c; lit = l; cursor = cursor; out = p i; left = q i }

pub finish_nothing-Rebuilds :
    (src dst : List ℕ) (cursor p : ℕ) (o : Streams) → p ≡ length dst → Rebuilds src dst cursor p o o
finish_nothing-Rebuilds src dst cursor p o h = record {
  ctrl = [];
  lit = [];
  last = cursor;
  ctrl_eq = sym (append-nil o.ctrl);
  lit_eq = sym (append-nil o.lit);
  runs = λ n crest lrest _.
      apply_loop_done n src (at_place dst cursor p crest lrest) (omega arith)
      ∙ ap (λ (t : ℕ). ok (at_place dst cursor t crest lrest)) h;
}

pub finish_literals-Rebuilds :
    (src dst : List ℕ) (cursor p : ℕ) (o : Streams)
    → p < length dst
    → length dst < 2 ^ 62
    → Rebuilds src dst cursor p o (put_op o (length dst - p) 0 0 (drop p dst))
finish_literals-Rebuilds src dst cursor p o h hd = record {
  ctrl = put_uvarint (length dst - p) ++ (put_uvarint 0 ++ put_varint 0);
  lit = drop p dst;
  last = cursor;
  ctrl_eq = unfold put_op in rw (append_assoc, append_assoc);
  lit_eq = unfold put_op in refl;
  runs = run;
}
  where
    ends : length (drop p dst) ≡ length dst - p
    ends = length-drop p dst

    run :
        (n : ℕ) (crest lrest : List ℕ)
        → length dst - p ≤ n
        → apply_loop n src (
            at_place dst cursor p
              ((put_uvarint (length dst - p) ++ (put_uvarint 0 ++ put_varint 0)) ++ crest)
              (drop p dst ++ lrest))
          ≡ ok (at_place dst cursor (length dst) crest lrest)
    run zero crest lrest k = absurd (omega arith)
    run (suc n) crest lrest k =
        apply_loop_step n src _ (omega arith) (
          round_literals src _ (drop p dst) crest lrest (omega arith) (omega (arith, ends))
            (omega (arith, ends)) (rw ends (rw (append_assoc, append_assoc))) refl)
        ∙ apply_loop_done n src _ (omega (arith, ends))
        ∙ ap ok (
            State-path
              (take-append-drop p dst ∙ sym (take-length_le (length dst) dst (omega arith)))
              (omega (arith, ends)))

-- An op with a copy, before what rebuilds the rest.
pub put_op-Rebuilds :
    (src dst : List ℕ) (cursor a b q l : ℕ) (o o' : Streams)
    → length src < 2 ^ 62
    → length dst < 2 ^ 62
    → cursor ≤ length src
    → a ≤ b
    → l ≢ 0
    → b + l ≤ length dst
    → q + l ≤ length src
    → slice q (q + l) src ≡ slice b (b + l) dst
    → Rebuilds src dst (q + l) (b + l) (put_op o (b - a) l (seek_from cursor q) (slice a b dst)) o'
    → Rebuilds src dst cursor a o o'
put_op-Rebuilds src dst cursor a b q l o o' hs hd hc le nz in_dst in_src same r = record {
  ctrl = put_uvarint (b - a) ++ (put_uvarint l ++ (put_varint (seek_from cursor q) ++ r.ctrl));
  lit = slice a b dst ++ r.lit;
  last = r.last;
  ctrl_eq = r.ctrl_eq ∙ (unfold put_op in rw (append_assoc, append_assoc, append_assoc));
  lit_eq = r.lit_eq ∙ (unfold put_op in append_assoc o.lit (slice a b dst) r.lit);
  runs = run;
}
  where
    size : length (slice a b dst) ≡ b - a
    size = length-slice a b dst le (omega arith)

    written : (take a dst ++ slice a b dst) ++ slice q (q + l) src ≡ take (b + l) dst
    written =
        ap (λ t. (take a dst ++ slice a b dst) ++ t) same
        ∙ ap (λ t. t ++ slice b (b + l) dst) (take-slice a b dst le)
        ∙ take-slice b (b + l) dst (omega arith)

    run :
        (n : ℕ) (crest lrest : List ℕ)
        → length dst - a ≤ n
        → apply_loop n src (
            at_place dst cursor a
              ((put_uvarint (b - a)
                  ++ (put_uvarint l ++ (put_varint (seek_from cursor q) ++ r.ctrl)))
                ++ crest)
              ((slice a b dst ++ r.lit) ++ lrest))
          ≡ ok (at_place dst r.last (length dst) crest lrest)
    run zero crest lrest k = absurd (omega arith)
    run (suc n) crest lrest k =
        apply_loop_step n src _ (omega arith) (
          round_copy src _ q l (slice a b dst) (r.ctrl ++ crest) (r.lit ++ lrest) hs hc
            (omega arith) in_src nz (omega (arith, size))
            (rw size (rw (append_assoc, append_assoc, append_assoc)))
            (append_assoc (slice a b dst) r.lit lrest))
        ∙ ap (apply_loop n src) (State-path written (omega (arith, size)))
        ∙ r.runs n crest lrest (omega arith)
