-- ===== src/Delta/Lz/Match/Checked.antt =====
-- Find where an index or a slice bound out of range panics: no lookup of it is, in the index of a
-- source below 2^32 bytes.
use go_binsync.Prelude.{
  ℕ, zero, suc, ◌+◌, ◌-◌, ◌*◌, List, length, drop, slice, ltb, leb, ◌==◌, ◌&&◌, ◌||◌, if◌then◌else◌,
  Result, ok, panic, ◌>>=◌,
}
use go_binsync.Delta.Errors.{Error}
use go_binsync.Delta.Lz.Match.{
  Index, Found, Hint, hash, match_len, search_loop, nothing, at_hint, wanted, long_enough,
}
use go_binsync.Delta.Lz.Match.Tables.{lookup}

-- `if l := matchLen(ix.src[ents[i]:], dst[p:]); l > length`
longer : Index → List ℕ → Found → ℕ → Found
longer ix tail best start =
    let l = match_len (drop start ix.src) tail in
    if ltb best.len l then record { pos = start; len = l } else best

try_checked : Index → List ℕ → List ℕ → ℕ → Found → Result Error Found
unfolding lookup longer
try_checked ix ents tail i best = if leb (length ents) i then ok best else (do
  start ← lookup ents i
  if ltb (length ix.src) start then panic else ok (longer ix tail best start))

try_both_checked : Index → List ℕ → List ℕ → ℕ → ℕ → Found → Result Error Found
unfolding try_checked
try_both_checked ix ents tail k d best = do
  below ← if ltb k d then ok best else try_checked ix ents tail (k - d) best
  try_checked ix ents tail (k + d - 1) below

near_checked : ℕ → ℕ → Index → List ℕ → List ℕ → ℕ → Found → Result Error Found
unfolding try_both_checked
near_checked zero d ix ents tail k best = ok best
near_checked (suc n) d ix ents tail k best = do
  next ← try_both_checked ix ents tail k d best
  near_checked n (d + 1) ix ents tail k next

far_checked : ℕ → ℕ → Index → List ℕ → List ℕ → ℕ → Found → Result Error Found
unfolding try_both_checked
far_checked zero step ix ents tail k best = ok best
far_checked (suc n) step ix ents tail k best = do
  next ← try_both_checked ix ents tail k step best
  far_checked n (step * 4) ix ents tail k next

probe_checked : Index → List ℕ → List ℕ → ℕ → Found → Result Error Found
unfolding near_checked far_checked search_loop
probe_checked ix ents tail want best = do
  let k = search_loop (length ents) 0 (length ents) ents want
  near ← near_checked 8 1 ix ents tail k best
  far ← far_checked ix.probe 8 ix ents tail k near
  first ← try_checked ix ents tail 0 far
  try_checked ix ents tail (length ents - 1) first

among_checked : Index → List ℕ → ℕ → Hint → List ℕ → Result Error Found
unfolding probe_checked at_hint wanted long_enough
among_checked ix tail p hint ents =
    let best = at_hint ix tail hint in
    if length ents == 0
    then ok (long_enough best)
    else (do m ← probe_checked ix ents tail (wanted hint p) best; ok (long_enough m))

-- `ix.pos[ix.bucket[b]:ix.bucket[b+1]]`
entries_checked : Index → List ℕ → Result Error (List ℕ)
unfolding hash lookup
entries_checked ix tail = do
  let b = hash ix.shift tail
  lo ← lookup ix.bucket b
  hi ← lookup ix.bucket (b + 1)
  if leb lo hi && leb hi (length ix.pos) then ok (slice lo hi ix.pos) else panic

unfoldable pub find_checked : Index → List ℕ → ℕ → Hint → Result Error Found
unfolding among_checked entries_checked
find_checked ix dst p hint =
    let tail = drop p dst in
    if ltb (length dst) (p + 8) || length ix.pos == 0
    then ok nothing
    else (do ents ← entries_checked ix tail; among_checked ix tail p hint ents)
