-- ===== src/Delta/Lz/RoundTrip.antt =====
-- Apply rebuilds what Emit was given, and leaves what stands behind Emit's ops in both streams.
mod Rounds
mod Rebuilding
mod Choices
use go_binsync.Prelude.{
  ℕ, zero, suc, ◌+◌, ◌-◌, ◌*◌, ◌%◌, ◌^◌, ◌≤◌, ◌<◌, ◌≡◌, ◌≢◌, refl, ap, ◌∙◌, sym, List, [], ◌∷◌,
  ◌++◌, append-nil, take-append-drop, take-length_le, ◌&&◌, ◌⊎◌, inl, inr, ok, true, false, Result,
  length, take, drop, slice, ltb, arith, length-take, length-drop, length-append, append_assoc,
  take-append, drop-append, Bool-cases, ◌==◌, if◌then◌else◌, if_both, length-slice, take-slice,
}
use go_binsync.Varint.{IsU64, put_uvarint, put_varint}
use go_binsync.Varint.Laws.{uvarint-put_uvarint, varint-put_varint}
use go_binsync.Delta.Errors.{Error}
use go_binsync.Delta.Lz.Match.{Index, Found, from, find, new_index}
use go_binsync.Delta.Lz.Match.Sound.{IsFind, find-IsFind}
use go_binsync.Delta.Lz.Emit.{
  Streams, seek_from, put_op, finish, Choice, choose, emit_loop, emit_with, emit,
}
use go_binsync.Delta.Lz.Apply.{
  State, Op, read_op, run_literals, source_slice, copy_refused, copy_at, run_copy, finish_op,
  run_op, round, apply_loop, apply,
}
use mathlib.Core.Path.{subst}
use Rebuilding.{State-path, Rebuilds, put_op-Rebuilds, at_place}
use Choices.{
  IsChosen, choose-IsChosen, finish-Rebuilds, chosen, emit_loop_end, emit_loop_skip, emit_loop_next,
}

module _ (ix : Index) (dst : List ℕ) (hs : length ix.src < 2 ^ 62) (hd : length dst < 2 ^ 62) where
  emit_loop-Rebuilds :
      (fuel cursor p start : ℕ) (o : Streams)
      → cursor ≤ length ix.src
      → start ≤ p
      → p ≤ length dst
      → length dst ≤ p + fuel
      → Rebuilds ix.src dst cursor start o (emit_loop fuel ix dst cursor p start o)
  emit_loop-Rebuilds zero cursor p start o hc le hp hf =
      unfold emit_loop in finish-Rebuilds ix.src dst cursor start o (omega arith) hd
  emit_loop-Rebuilds (suc fuel) cursor p start o hc le hp hf =
      elim (Bool-cases (ltb p (length dst))) [
        | inr end ↦
            rw (emit_loop_end fuel ix dst cursor p start o end)
              (finish-Rebuilds ix.src dst cursor start o (omega arith) hd)
        | inl more ↦ elim (Bool-cases ((find ix dst p (from cursor)).len == 0)) [
          | inl none ↦ rw (emit_loop_skip fuel ix dst cursor p start o more none) (
              emit_loop-Rebuilds fuel cursor (p + 1) start o hc (omega arith) (ground arith)
                (omega arith))
          | inr some ↦
              let c = chosen fuel ix dst cursor p start o in
              let f = choose-IsChosen ix dst p cursor (ground arith) (ground arith) in
              rw (emit_loop_next fuel ix dst cursor p start o more some) (
                put_op-Rebuilds ix.src dst cursor start c.p c.found.pos c.found.len o _ hs hd hc
                  (omega (arith, f.behind)) f.some f.in_dst f.in_src f.same
                  (emit_loop-Rebuilds fuel (c.found.pos + c.found.len) (c.p + c.found.len)
                    (c.p + c.found.len)
                    (put_op o (c.p - start) c.found.len (seek_from cursor c.found.pos)
                      (slice start c.p dst))
                    f.in_src (omega arith) f.in_dst (omega (arith, f.behind, f.some))))
        ]
      ]

pub src-new_index : (src : List ℕ) → (new_index src).src ≡ src
unfolding new_index
src-new_index src = ground arith

emit-Rebuilds :
    (src dst ctrl lit : List ℕ)
    → length src < 2 ^ 62
    → length dst < 2 ^ 62
    → Rebuilds src dst 0 0 (record { ctrl = ctrl; lit = lit }) (emit src dst ctrl lit)
unfolding emit emit_with
emit-Rebuilds src dst ctrl lit hs hd =
    subst (λ s. Rebuilds s dst 0 0 (record { ctrl = ctrl; lit = lit }) (emit src dst ctrl lit))
      (src-new_index src)
      (emit_loop-Rebuilds (new_index src) dst (rw (src-new_index src) hs) hd (length dst) 0 0 0
        (record { ctrl = ctrl; lit = lit }) (omega arith) (omega arith) (omega arith) (omega arith))

apply_lem :
    (src ctrl lit : List ℕ) (n : ℕ)
    → apply src ctrl lit n
      ≡ apply_loop n src (record { ctrl = ctrl; lit = lit; cursor = 0; out = []; left = n })
unfolding apply
apply_lem src ctrl lit n = refl

-- Emit keeps what stands in both streams, and Apply on what it puts behind, with anything after
-- that, writes `dst` and leaves what comes after, for any source below 2^32 and `dst` below 2^62 bytes.
pub apply-emit :
    (src dst ctrl lit crest lrest : List ℕ)
    → length src < 2 ^ 32
    → length dst < 2 ^ 62
    → (take (length ctrl) (emit src dst ctrl lit).ctrl ≡ ctrl)
      × (take (length lit) (emit src dst ctrl lit).lit ≡ lit)
      × ((last : ℕ) × (apply src
              (drop (length ctrl) (emit src dst ctrl lit).ctrl ++ crest)
              (drop (length lit) (emit src dst ctrl lit).lit ++ lrest)
              (length dst)
            ≡ ok (record { ctrl = crest; lit = lrest; cursor = last; out = dst; left = 0 })))
apply-emit src dst ctrl lit crest lrest hs hd =
    let r = emit-Rebuilds src dst ctrl lit (omega arith) hd in
    (
      ap (take (length ctrl)) r.ctrl_eq ∙ take-append ctrl r.ctrl (length ctrl) refl,
      ap (take (length lit)) r.lit_eq ∙ take-append lit r.lit (length lit) refl,
      (
        r.last,
        rw (r.ctrl_eq, r.lit_eq)
            (rw
              (drop-append ctrl r.ctrl (length ctrl) refl, drop-append lit r.lit (length lit) refl)
              (apply_lem src (r.ctrl ++ crest) (r.lit ++ lrest) (length dst)
                ∙ ap (apply_loop (length dst) src) (State-path refl (omega arith))
                ∙ r.runs (length dst) crest lrest (omega arith)
                ∙ ap ok
                    (State-path (take-length_le (length dst) dst (omega arith)) (omega arith)))),
      ),
    )
