-- ===== src/Delta/Plain/Encode.antt =====
-- plainDiff of delta/plain.go. Ints that may be below 0 are bit patterns, or stand with what is taken
-- from them on the other side of a comparison.
pub mod Bounds
pub mod Rounds
use go_binsync.Prelude.{
  ℕ, zero, suc, ◌+◌, ◌-◌, ◌*◌, ◌%◌, ◌^◌, max, Bool, true, false, ◌&&◌, ◌||◌, not, List, [], ◌∷◌,
  ◌++◌, Result, ok, err, stuck, ◌>>=◌, length, take, drop, slice, get_or, ltb, ◌==◌, if◌then◌else◌,
}
use mathlib.Core.List.{reverse}
use go_binsync.Int64.{add64}
use go_binsync.Varint.{is_neg}
use go_binsync.Delta.Errors.{Error, too_large}
use go_binsync.Delta.Buf.Put
use go_binsync.Delta.Buf.Put.{Wbuf}
use go_binsync.Delta.Lz.Match.{Index, Hint, Found, from, no_preference, find, new_index, set_probe}
use go_binsync.Delta.Plain.Runs.{DiffWriter, write}

abbrev pub max_plain_size : ℕ
max_plain_size = 256 * 2 ^ 20

abbrev pub plain_probe : ℕ
plain_probe = 5

-- Find's hint, which is none where it is below 0.
unfoldable pub hint_of : ℕ → Hint
hint_of h = if is_neg h then no_preference else from h

-- `inOld(i+off) && old[i+off] == new[i]`
unfoldable pub agrees : List ℕ → List ℕ → ℕ → ℕ → Bool
agrees old new off i =
    let j = add64 i off in
    (not (is_neg j) && ltb j (length old)) && get_or old j 0 == get_or new i 0

-- The loop over scsc: how many of the next bytes agree.
unfoldable pub agreements : ℕ → List ℕ → List ℕ → ℕ → ℕ → ℕ
unfolding agrees
agreements zero old new off i = 0
agreements (suc n) old new off i =
    (if agrees old new off i then 1 else 0) + agreements n old new off (i + 1)

-- The scan; oldscore is `gained - lost`.
pub record Scan : Type 0 where
  pub scan : ℕ
  pub scsc : ℕ
  pub gained : ℕ
  pub lost : ℕ
  pub found : Found

-- `mlen == oldscore && mlen != 0 || mlen > oldscore+8`
unfoldable pub stops : Scan → Bool
stops s =
    (s.found.len + s.lost == s.gained && not (s.found.len == 0))
    || ltb (s.gained + 8) (s.found.len + s.lost)

-- A round: the match at `scan`, and the bytes that agree up to its end.
unfoldable pub look : Index → List ℕ → List ℕ → ℕ → Scan → Scan
unfolding agreements hint_of
look ix old new off s =
    let m = find ix new s.scan (hint_of (add64 s.scan off)) in
    record s {
      scsc = max s.scsc (s.scan + m.len);
      gained = s.gained + agreements (s.scan + m.len - s.scsc) old new off s.scsc;
      found = m;
    }

unfoldable pub move_on : List ℕ → List ℕ → ℕ → Scan → Scan
unfolding agrees
move_on old new off s = record s {
  scan = s.scan + 1;
  lost = if agrees old new off s.scan then s.lost + 1 else s.lost;
}

-- `for scsc := scan; scan < len(new); scan++`, with `len(new) - scan` rounds left.
unfoldable pub scan_loop : ℕ → Index → List ℕ → List ℕ → ℕ → Scan → Scan
unfolding look stops move_on
scan_loop zero ix old new off s = s
scan_loop (suc n) ix old new off s =
    let t = look ix old new off s in
    let more = scan_loop n ix old new off (move_on old new off t) in if stops t then t else more

-- Both loops that extend a match: over the bytes from its end on, and over the bytes before it, the
-- nearest first. `s*2-i > best*2-len` at the `i`-th byte.
unfoldable pub extend : ℕ → ℕ → ℕ → ℕ → List ℕ → List ℕ → ℕ
extend i s best len [] ys = len
extend i s best len (x ∷ xs) [] = len
extend i s best len (x ∷ xs) (y ∷ ys) =
    let s' = if x == y then s + 1 else s in
    let better = ltb (best * 2 + (i + 1)) (s' * 2 + len) in
    extend (i + 1) s' (if better then s' else best) (if better then i + 1 else len) xs ys

-- The loop over the overlap: its bytes, and what the first and the second match have there. `s` is
-- `up - down`.
unfoldable pub split : ℕ → ℕ → ℕ → ℕ → ℕ → List ℕ → List ℕ → List ℕ → ℕ
split i up down best lens (x ∷ xs) (y ∷ ys) (z ∷ zs) =
    let up' = if x == y then up + 1 else up in
    let down' = if x == z then down + 1 else down in
    let better = ltb (best + down') up' in
    split (i + 1) up' down' (if better then up' - down' else best) (if better then i + 1 else lens)
      xs ys zs
split i up down best lens xs ys zs = lens

pub record Diff : Type 0 where
  pub scan : ℕ
  pub found : Found
  pub last_scan : ℕ
  pub last_pos : ℕ
  pub last_offset : ℕ
  pub count : ℕ
  pub ctrl : Wbuf
  pub diff : DiffWriter
  pub extra : Wbuf

-- lenf and lenb.
pub record Lengths : Type 0 where
  pub forward : ℕ
  pub backward : ℕ

unfoldable pub extensions : List ℕ → List ℕ → Diff → Lengths
unfolding extend
extensions old new s =
    let between = slice s.last_scan s.scan new in
    record {
      forward = extend 0 0 0 0 between (drop s.last_pos old);
      backward =
          if ltb s.scan (length new)
          then extend 0 0 0 0 (reverse between) (reverse (take s.found.pos old))
          else 0;
    }

-- Where the extensions overlap, the overlap is split.
unfoldable pub without_overlap : List ℕ → List ℕ → Diff → Lengths → Lengths
unfolding split
without_overlap old new s l =
    let overlap = s.last_scan + l.forward - (s.scan - l.backward) in
    let lens =
      split 0 0 0 0 0 (slice (s.scan - l.backward) (s.last_scan + l.forward) new)
        (slice (s.last_pos + l.forward - overlap) (s.last_pos + l.forward) old)
        (slice (s.found.pos - l.backward) (s.found.pos - l.backward + overlap) old) in
    if ltb (s.scan - l.backward) (s.last_scan + l.forward)
    then record { forward = l.forward + lens - overlap; backward = l.backward - lens }
    else l

-- a - b of ints that are not below 0.
abbrev pub minus : ℕ → ℕ → ℕ
minus a b = (a + 2 ^ 64 - b) % 2 ^ 64

unfoldable pub put_triple : List ℕ → List ℕ → Diff → Lengths → Diff
unfolding Put.u Put.s Put.raw
put_triple old new s l =
    let mid = s.last_scan + l.forward in
    let nextra = s.scan - l.backward - mid in
    record s {
      last_scan = s.scan - l.backward;
      last_pos = s.found.pos - l.backward;
      last_offset = minus s.found.pos s.scan;
      count = s.count + 1;
      ctrl =
          Put.s (Put.u (Put.u s.ctrl l.forward) nextra)
            (minus (s.found.pos - l.backward) (s.last_pos + l.forward));
      diff =
          write s.diff (slice s.last_scan mid new) (slice s.last_pos (s.last_pos + l.forward) old);
      extra = Put.raw s.extra (slice mid (mid + nextra) new);
    }

-- `mlen != oldscore || scan == len(new)`
unfoldable pub emits : List ℕ → Scan → Bool
emits new t = not (t.found.len + t.lost == t.gained) || t.scan == length new

-- One round of the loop over the new file.
unfoldable pub round : Index → List ℕ → List ℕ → Diff → Diff
unfolding scan_loop emits extensions without_overlap put_triple
round ix old new s =
    let start = s.scan + s.found.len in
    let t =
      scan_loop (length new - start) ix old new s.last_offset
        (record { scan = start; scsc = start; gained = 0; lost = 0; found = s.found }) in
    let s' = record s { scan = t.scan; found = t.found } in
    if emits new t
    then put_triple old new s' (without_overlap old new s' (extensions old new s'))
    else s'

-- `for scan < len(new)`
unfoldable pub diff_loop : ℕ → Index → List ℕ → List ℕ → Diff → Result Error Diff
unfolding round
diff_loop zero ix old new s = stuck
diff_loop (suc fuel) ix old new s =
    let more = diff_loop fuel ix old new (round ix old new s) in
    if ltb s.scan (length new) then more else ok s

unfoldable pub pack_plain : ℕ → Wbuf → Wbuf → Wbuf → List ℕ
unfolding Put.u Put.raw
pack_plain ntriples ctrl diff extra =
    Put.raw
      (Put.raw
        (Put.raw
          (Put.u (Put.u (Put.u (Put.u [] ntriples) (length ctrl)) (length diff)) (length extra))
          ctrl)
        diff)
      extra

abbrev pub packed_diff : Diff → List ℕ
packed_diff s = pack_plain s.count s.ctrl s.diff.w s.extra

abbrev pub new_diff : Diff
new_diff = record {
  scan = 0;
  found = record { pos = 0; len = 0 };
  last_scan = 0;
  last_pos = 0;
  last_offset = 0;
  count = 0;
  ctrl = [];
  diff = record { w = []; logical = 0; last_end = 0 };
  extra = [];
}

-- Each round takes `scan + mlen` on, which stays within the new file.
unfoldable pub plain_diff : List ℕ → List ℕ → Result Error (List ℕ)
unfolding diff_loop pack_plain
plain_diff old new =
    let ix = set_probe (new_index old) plain_probe in
    let empty = pack_plain 1 (Put.s (Put.u (Put.u [] 0) (length new)) 0) [] (Put.raw [] new) in
    if length old == 0
    then ok empty
    else diff_loop (length new + 2) ix old new new_diff >>= λ s. ok (packed_diff s)

unfoldable pub encode_plain : List ℕ → List ℕ → Result Error (List ℕ)
unfolding plain_diff
encode_plain old new = if ltb max_plain_size (length old) then err too_large else plain_diff old new
