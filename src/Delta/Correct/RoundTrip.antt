-- ===== src/Delta/Correct/RoundTrip.antt =====
-- applyCorrection turns the prediction into the file that encodeCorrection was given.
mod Patched
pub mod Bounds
mod Regions
mod Coding
mod Loop
use Patched.{patched, patched_start, patched-Agree, patched_end}
use Regions.{before}
use Loop.{Extends, IsFit, regions-Extends}
use go_binsync.Prelude.{
  ℕ, zero, suc, ◌+◌, ◌-◌, ◌*◌, ◌^◌, ◌≤◌, ◌<◌, ◌≡◌, refl, ap, ◌∙◌, sym, List, [], ◌++◌, Result, ok,
  err, length, arith, ◌>>=◌, ==_iff, length-append, append_assoc, append-nil, ◌==◌, if◌then◌else◌,
}
use go_binsync.Varint.{put_uvarint}
use go_binsync.Delta.Errors.{Error}
use go_binsync.Delta.Buf
use go_binsync.Delta.Buf.{reading}
use go_binsync.Delta.Buf.Put
use go_binsync.Delta.Buf.Laws.{u-put, un-put, take_bytes-append}
use go_binsync.Delta.Correct.Encode.{
  Regions as FileRegions, no_regions, regions, pack, encode_correction,
}
use go_binsync.Delta.Correct.Apply.{Place, region_loop, finish, check, apply_correction}

-- The stream, bracketed to the right.
abbrev packed : ℕ → ℕ → List ℕ → List ℕ → List ℕ
packed n count ctrl lit =
    put_uvarint n
    ++ (put_uvarint count
        ++ (put_uvarint (length ctrl) ++ (put_uvarint (length lit) ++ (ctrl ++ lit))))

pack_lem :
    (want : List ℕ) (r : FileRegions) → pack want r ≡ packed (length want) r.count r.ctrl r.lit
unfolding pack
pack_lem want r = simp append_assoc

length-packed :
    (n count : ℕ) (ctrl lit : List ℕ) → length ctrl + length lit ≤ length (packed n count ctrl lit)
length-packed n count ctrl lit = omega (
  arith,
  length-append (put_uvarint n) (
      put_uvarint count
      ++ (put_uvarint (length ctrl) ++ (put_uvarint (length lit) ++ (ctrl ++ lit)))),
  length-append (put_uvarint count)
      (put_uvarint (length ctrl) ++ (put_uvarint (length lit) ++ (ctrl ++ lit))),
  length-append (put_uvarint (length ctrl)) (put_uvarint (length lit) ++ (ctrl ++ lit)),
  length-append (put_uvarint (length lit)) (ctrl ++ lit),
  length-append ctrl lit,
)

take_bytes-all : (b : List ℕ) → Buf.take_bytes (reading b) (length b) ≡ (b, reading [])
take_bytes-all b =
    ap (λ t. Buf.take_bytes (reading t) (length b)) (sym (append-nil b)) ∙ take_bytes-append b []

-- The reads in front of the loop, on a stream that is packed as the encoder packs it.
apply_correction-packed :
    (buf : List ℕ) (count : ℕ) (ctrl lit : List ℕ)
    → length buf < 2 ^ 32
    → count ≤ length buf
    → length ctrl < 2 ^ 62
    → length lit < 2 ^ 62
    → apply_correction buf (packed (length buf) count ctrl lit)
      ≡ (region_loop count (record { ctrl = ctrl; lit = lit; buf = buf; pos = 0 }) >>= finish)
unfolding apply_correction
apply_correction-packed buf count ctrl lit hb hc hctrl hlit =
    let total = length (packed (length buf) count ctrl lit) in
    let r4 = ctrl ++ lit in
    let r3 = put_uvarint (length lit) ++ r4 in
    let r2 = put_uvarint (length ctrl) ++ r3 in
    let r1 = put_uvarint count ++ r2 in
    let room = length-packed (length buf) count ctrl lit in
    rw (u-put (length buf) r1 (omega arith)) (
      rw (un-put count (length buf + 1) r2 (omega arith) (omega arith)) (
        rw (un-put (length ctrl) total r3 (omega arith) (omega (arith, room))) (
          rw (un-put (length lit) total r4 (omega arith) (omega (arith, room))) (
            rw (take_bytes-append ctrl lit, take_bytes-all lit)
              (rw ((==_iff (length buf) (length buf)).1 refl))))))

finish_lem :
    (pred want : List ℕ) (e : ℕ) → finish (before pred want e [] []) ≡ ok (patched pred want e)
unfolding finish
finish_lem pred want e = refl

pub encode_correction_lem :
    (pred want : List ℕ)
    → length pred ≡ length want
    → encode_correction pred want ≡ ok (pack want (regions (length want) pred want 0 no_regions))
unfolding encode_correction
encode_correction_lem pred want same = rw ((==_iff (length pred) (length want)).1 same)

module _ (pred want : List ℕ) (same : length pred ≡ length want)
    (small : length want < 2 ^ 32) where
  abbrev written : FileRegions
  written = regions (length want) pred want 0 no_regions

  extends : Extends pred want no_regions written
  extends =
      regions-Extends pred want same small (length want) 0 no_regions (omega arith) (omega arith)
        (omega arith) (λ i h k. absurd (omega arith))
        (record { ctrl_fits = omega arith; lit_fits = omega arith; count_fits = omega arith })

  decoded :
      region_loop written.count
        (record { ctrl = written.ctrl; lit = written.lit; buf = pred; pos = 0 })
      ≡ ok (before pred want written.prev_end [] [])
  decoded =
      let x = extends in
      ap
        (λ t.
          region_loop written.count (record { ctrl = t; lit = written.lit; buf = pred; pos = 0 }))
        (x.ctrl_eq ∙ sym (append-nil x.ctrl))
      ∙ ap
          (λ t.
            region_loop written.count
              (record { ctrl = x.ctrl ++ []; lit = t; buf = pred; pos = 0 }))
          (x.lit_eq ∙ sym (append-nil x.lit))
      ∙ ap
          (λ t.
            region_loop written.count
              (record { ctrl = x.ctrl ++ []; lit = x.lit ++ []; buf = t; pos = 0 }))
          (sym (patched_start pred want same))
      ∙ ap (λ (t : ℕ). region_loop t (before pred want 0 (x.ctrl ++ []) (x.lit ++ [])))
          {y = x.rounds} (omega (arith, x.counted))
      ∙ x.decodes [] []

  -- For any prediction and file of one length, below 2^32 bytes, encodeCorrection succeeds, and
  -- applyCorrection of its stream to the prediction gives the file.
  pub apply_correction-encode_correction :
      (encode_correction pred want >>= apply_correction pred) ≡ ok want
  apply_correction-encode_correction =
      let x = extends in
      ap (λ t. t >>= apply_correction pred) (encode_correction_lem pred want same)
      ∙ ap (apply_correction pred) (pack_lem want written)
      ∙ ap (λ (t : ℕ). apply_correction pred (packed t written.count written.ctrl written.lit))
          (sym same)
      ∙ apply_correction-packed pred written.count written.ctrl written.lit (omega arith)
          (omega (arith, x.fit.count_fits, x.in_file))
          (omega (arith, x.fit.ctrl_fits, x.fit.count_fits, x.in_file))
          (omega (arith, x.fit.lit_fits, x.in_file))
      ∙ ap (λ t. t >>= finish) decoded
      ∙ finish_lem pred want written.prev_end
      ∙ ap ok (
          patched-Agree pred want same written.prev_end (length want) x.in_file (omega arith)
            x.agree
          ∙ patched_end pred want same)
