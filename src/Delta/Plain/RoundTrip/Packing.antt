-- ===== src/Delta/Plain/RoundTrip/Packing.antt =====
-- The body of a plain patch: how it is packed, and the reads and checks around the triples.
use go_binsync.Prelude.{
  ℕ, ◌+◌, ◌^◌, ◌≤◌, ◌<◌, ◌≡◌, refl, List, [], ◌++◌, ok, ◌>>=◌, length, ==_iff, length-append,
  append_assoc, append-nil, arith,
}
use go_binsync.Varint.{put_uvarint}
use go_binsync.Delta.Buf
use go_binsync.Delta.Buf.{reading}
use go_binsync.Delta.Buf.Put
use go_binsync.Delta.Buf.Laws.{un-put, take_bytes-append}
use go_binsync.Delta.Correct.RoundTrip.Bounds.{length-put_uvarint}
use go_binsync.Delta.Plain.Runs
use go_binsync.Delta.Plain.Runs.{DiffWriter, new_diff_reader, advance, write_loop, write}
use go_binsync.Delta.Plain.Encode.{pack_plain}
use go_binsync.Delta.Plain.Patch.{triples, finish, plain_patch}
use go_binsync.Delta.Plain.RoundTrip.Triple.{ahead}
use go_binsync.Delta.Plain.RoundTrip.Sending.{no_runs}

-- The body, bracketed to the right.
abbrev pub packed : ℕ → List ℕ → List ℕ → List ℕ → List ℕ
packed n ctrl diff extra =
    put_uvarint n
    ++ (put_uvarint (length ctrl)
        ++ (put_uvarint (length diff)
            ++ (put_uvarint (length extra) ++ (ctrl ++ (diff ++ (extra ++ []))))))

pub pack_plain_lem :
    (n : ℕ) (ctrl diff extra : List ℕ) → pack_plain n ctrl diff extra ≡ packed n ctrl diff extra
unfolding pack_plain Put.u Put.raw
pack_plain_lem n ctrl diff extra = simp (append_assoc, append-nil)

length-packed :
    (n : ℕ) (ctrl diff extra : List ℕ)
    → length (packed n ctrl diff extra)
      ≡ length (put_uvarint n)
        + length (put_uvarint (length ctrl))
        + length (put_uvarint (length diff))
        + length (put_uvarint (length extra))
        + length ctrl
        + length diff
        + length extra
length-packed n ctrl diff extra =
    let r5 = ctrl ++ (diff ++ (extra ++ [])) in
    let r4 = put_uvarint (length extra) ++ r5 in
    let r3 = put_uvarint (length diff) ++ r4 in
    let r2 = put_uvarint (length ctrl) ++ r3 in
    omega (
      arith,
      length-append (put_uvarint n) r2,
      length-append (put_uvarint (length ctrl)) r3,
      length-append (put_uvarint (length diff)) r4,
      length-append (put_uvarint (length extra)) r5,
      length-append ctrl (diff ++ (extra ++ [])),
      length-append diff (extra ++ []),
      length-append extra [],
    )

pub length-packed_le :
    (n : ℕ) (ctrl diff extra : List ℕ)
    → length (packed n ctrl diff extra) ≤ 40 + length ctrl + length diff + length extra
length-packed_le n ctrl diff extra = omega (
  arith,
  length-packed n ctrl diff extra,
  length-put_uvarint n,
  length-put_uvarint (length ctrl),
  length-put_uvarint (length diff),
  length-put_uvarint (length extra),
)

-- The reads in front of the loop over the triples.
pub plain_patch-packed :
    (old : List ℕ) (new_len n : ℕ) (ctrl diff extra : List ℕ)
    → new_len < 2 ^ 62
    → n ≤ length ctrl
    → length ctrl < 2 ^ 62
    → length diff < 2 ^ 62
    → length extra ≤ new_len
    → plain_patch old (packed n ctrl diff extra) new_len
      ≡ (triples n old new_len (ahead new_len no_runs ctrl diff extra 0 []) >>= finish new_len)
unfolding plain_patch new_diff_reader Buf.done
plain_patch-packed old new_len n ctrl diff extra hn hc hctrl hdiff hextra =
    let total = length (packed n ctrl diff extra) in
    let r5 = ctrl ++ (diff ++ (extra ++ [])) in
    let r4 = put_uvarint (length extra) ++ r5 in
    let r3 = put_uvarint (length diff) ++ r4 in
    let r2 = put_uvarint (length ctrl) ++ r3 in
    let room = length-packed n ctrl diff extra in
    rw (un-put n total r2 (omega arith) (omega (arith, room))) (
      rw (un-put (length ctrl) total r3 (omega arith) (omega (arith, room))) (
        rw (un-put (length diff) total r4 (omega arith) (omega (arith, room))) (
          rw (un-put (length extra) new_len r5 (omega arith) hextra) (
            rw (take_bytes-append ctrl (diff ++ (extra ++ [])))
              (rw (take_bytes-append diff (extra ++ [])) (rw (take_bytes-append extra []) refl))))))

-- Behind the last triple.
pub finish-ahead :
    (w : DiffWriter) (opos : ℕ) (out : List ℕ)
    → finish (length out) (ahead (length out) w [] [] [] opos out) ≡ ok out
unfolding finish Buf.done Runs.done advance
finish-ahead w opos out = rw ((==_iff (length out) (length out)).1 refl) refl
