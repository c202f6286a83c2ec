-- ===== src/Delta/Correct/Encode.antt =====
-- encodeCorrection of delta/correct.go.
use go_binsync.Prelude.{
  ℕ, zero, suc, ◌+◌, ◌-◌, ◌*◌, ◌&&◌, not, List, [], ◌++◌, Result, ok, err, length, slice, min, ltb,
  ◌==◌, if◌then◌else◌,
}
use go_binsync.Varint.{put_uvarint}
use go_binsync.Delta.Errors.{Error, size_mismatch}
use go_binsync.Delta.Buf.Put
use go_binsync.Delta.Lz.Match.{at}
use go_binsync.Delta.Lz.Emit.{Streams, emit}

abbrev pub merge_gap : ℕ
merge_gap = 6

abbrev pub src_slack : ℕ
src_slack = 256

unfoldable pub slack_at : ℕ → ℕ → ℕ
slack_at end n = min src_slack (n - end)

-- `for k < len(want) && k-e < mergeGap && pred[k] == want[k] { k++ }`, with the rounds left.
unfoldable pub gap_end : ℕ → List ℕ → List ℕ → ℕ → ℕ → ℕ
gap_end zero pred want e k = k
gap_end (suc fuel) pred want e k =
    let more = gap_end fuel pred want e (k + 1) in
    if ltb k (length want) && ltb (k - e) merge_gap && at pred k == at want k then more else k

-- The loop that grows a region: its end, from `e` on. A gap takes at most six rounds, and the region
-- grows with each round but the last.
unfoldable pub grow : ℕ → List ℕ → List ℕ → ℕ → ℕ
unfolding gap_end
grow zero pred want e = e
grow (suc fuel) pred want e =
    let k = gap_end merge_gap pred want e e in
    let more = grow fuel pred want (k + 1) in
    if ltb e (length want) && ltb (k - e) merge_gap && ltb k (length want) then more else e

pub record Regions : Type 0 where
  pub streams : Streams
  pub open streams use *
  pub count : ℕ
  pub prev_end : ℕ

-- Writes the region [s, e): as an lz stream where that is shorter than its bytes, else as literals.
unfoldable pub put_region : List ℕ → List ℕ → ℕ → ℕ → Regions → Regions
unfolding slack_at
put_region pred want s e r =
    let gap = r.ctrl ++ put_uvarint (s - r.prev_end) in
    let coded =
      emit (slice s (e + slack_at e (length pred)) pred) (slice s e want)
        (gap ++ put_uvarint ((e - s) * 2 + 1)) r.lit in
    let plain : Streams = record {
      ctrl = gap ++ put_uvarint ((e - s) * 2);
      lit = r.lit ++ slice s e want;
    } in
    let size = length coded.ctrl - length gap + length coded.lit - length r.lit in
    record {
      streams = if ltb size (e - s) then coded else plain;
      count = r.count + 1;
      prev_end = e;
    }

-- `for s := 0; s < len(want);`. Each round moves `s` on, so `len(want)` rounds are enough.
unfoldable pub regions : ℕ → List ℕ → List ℕ → ℕ → Regions → Regions
unfolding grow put_region
regions zero pred want s r = r
regions (suc fuel) pred want s r =
    let e = grow (length want) pred want (s + 1) in
    let same = regions fuel pred want (s + 1) r in
    let region = regions fuel pred want e (put_region pred want s e r) in
    if ltb s (length want) then (if at pred s == at want s then same else region) else r

abbrev pub no_regions : Regions
no_regions = record { streams = record { ctrl = []; lit = [] }; count = 0; prev_end = 0 }

unfoldable pub pack : List ℕ → Regions → List ℕ
unfolding Put.u Put.raw
pack want r =
    Put.raw
      (Put.raw
        (Put.u (Put.u (Put.u (Put.u [] (length want)) r.count) (length r.ctrl)) (length r.lit))
        r.ctrl)
      r.lit

unfoldable pub encode_correction : List ℕ → List ℕ → Result Error (List ℕ)
unfolding regions pack
encode_correction pred want =
    if not (length pred == length want)
    then err size_mismatch
    else ok (pack want (regions (length want) pred want 0 no_regions))
