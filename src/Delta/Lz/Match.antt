-- ===== src/Delta/Lz/Match.antt =====
-- The content index of delta/internal/lz/lz.go (Index, NewIndex, Find). A buffer is a list of
-- bytes, an array of counts a list of numbers. A lookup out of range, where Go panics, stands for
-- nothing here; the same code with its panics is in Built, Indexed and Checked.
pub mod Sound
pub mod Tables
pub mod Built
pub mod Indexed
pub mod Checked
use go_binsync.Prelude.{
  ℕ, zero, suc, ◌+◌, ◌-◌, ◌*◌, ◌/◌, ◌%◌, ◌^◌, min, max, Bool, true, false, ◌&&◌, ◌||◌, List, [],
  ◌∷◌, length, take, drop, slice, set, replicate, ltb, leb, ◌==◌, if◌then◌else◌,
}

abbrev pub min_match : ℕ
min_match = 6

-- xs[i] of an index in range.
abbrev pub at : List ℕ → ℕ → ℕ
at [] i = 0
at (x ∷ xs) zero = x
at (x ∷ xs) (suc i) = at xs i

-- An int that may be below 0: a hint, by the source's convention.
pub data Hint : Type 0 where
  from : ℕ → Hint
  no_preference : Hint

pub record Index : Type 0 where
  pub src : List ℕ
  pub bucket : List ℕ
  pub pos : List ℕ
  pub shift : ℕ
  pub probe : ℕ

pub record Found : Type 0 where
  pub pos : ℕ
  pub len : ℕ

-- bits.Len(n): the digits of `n` in binary.
bit_len : ℕ → ℕ → ℕ
bit_len zero n = 0
bit_len (suc fuel) n = let rest = bit_len fuel (n / 2) in if n == 0 then 0 else suc rest

hash_bits_for : ℕ → ℕ
unfolding bit_len
hash_bits_for n = min (max (bit_len 64 n) 10) 22

abbrev little_endian : List ℕ → ℕ
little_endian [] = 0
little_endian (b ∷ bs) = b + 256 * little_endian bs

-- The six leading bytes, multiplied and shifted; `uint32` cuts off what is above 32 bits.
pub hash : ℕ → List ℕ → ℕ
hash shift b = little_endian (take 8 b) % 2 ^ 48 * 0x9E3779B97F4A7C15 % 2 ^ 64 / 2 ^ shift % 2 ^ 32

-- `for i := 0; i < n; i++ { counts[ix.hash(src[i:])+1]++ }`, with the rounds left.
pub count_loop : ℕ → ℕ → List ℕ → List ℕ → List ℕ
count_loop zero shift src counts = counts
count_loop (suc k) shift src counts =
    let b = hash shift src + 1 in
    count_loop k shift (drop 1 src) (set counts b ((at counts b + 1) % 2 ^ 32))

-- `for b := 1; b < len(counts); b++ { counts[b] += counts[b-1] }`, behind the sum so far.
pub prefix_sums : ℕ → List ℕ → List ℕ
prefix_sums sum [] = []
prefix_sums sum (c ∷ cs) = (sum + c) % 2 ^ 32 ∷ prefix_sums ((sum + c) % 2 ^ 32) cs

-- `for i := 0; i < n; i++ { h := ...; ix.pos[fill[h]] = uint32(i); fill[h]++ }`.
pub fill_loop : ℕ → ℕ → ℕ → List ℕ → List ℕ → List ℕ → List ℕ
fill_loop zero i shift src fill pos = pos
fill_loop (suc k) i shift src fill pos =
    let h = hash shift src in
    fill_loop k (i + 1) shift (drop 1 src) (set fill h ((at fill h + 1) % 2 ^ 32))
      (set pos (at fill h) (i % 2 ^ 32))

unfoldable pub new_index : List ℕ → Index
unfolding hash_bits_for count_loop prefix_sums fill_loop hash
new_index src =
    let hb = hash_bits_for (length src) in
    let n = length src - 7 in
    let counts = prefix_sums 0 (count_loop n (64 - hb) src (replicate (2 ^ hb + 1) 0)) in
    if n == 0
    then record {
      src = src;
      bucket = replicate (2 ^ hb + 1) 0;
      pos = [];
      shift = 64 - hb;
      probe = 5;
    }
    else record {
      src = src;
      bucket = counts;
      pos = fill_loop n 0 (64 - hb) src (take (2 ^ hb) counts) (replicate n 0);
      shift = 64 - hb;
      probe = 5;
    }

unfoldable pub set_probe : Index → ℕ → Index
set_probe ix n = record ix { probe = max n 1 }

-- The tail loop of matchLen, and the place of the first byte at which two words differ:
-- `bits.TrailingZeros64(x) / 8` for their exclusive or `x`.
abbrev pub common_prefix : List ℕ → List ℕ → ℕ
common_prefix [] ys = 0
common_prefix (x ∷ xs) [] = 0
common_prefix (x ∷ xs) (y ∷ ys) = let rest = common_prefix xs ys in if x == y then suc rest else 0

-- `for ; i+8 <= n; i += 8`, on what is left of both slices, then the tail loop.
match_len_loop : ℕ → List ℕ → List ℕ → ℕ
match_len_loop zero a b = common_prefix a b
match_len_loop (suc fuel) a b =
    let equal = common_prefix (take 8 a) (take 8 b) in
    let rest = 8 + match_len_loop fuel (drop 8 a) (drop 8 b) in
    if ltb (min (length a) (length b)) 8
    then common_prefix a b
    else if equal == 8
    then rest
    else equal

unfoldable pub match_len : List ℕ → List ℕ → ℕ
unfolding match_len_loop
match_len a b = match_len_loop (length a) a b

-- sort.Search: the least index in [i, j) at which the rising `ents` reach `want`.
search_loop : ℕ → ℕ → ℕ → List ℕ → ℕ → ℕ
search_loop zero i j ents want = i
search_loop (suc fuel) i j ents want =
    let h = (i + j) / 2 in
    let rest : ℕ = elim (leb want (at ents h)) [
      | true ↦ search_loop fuel i h ents want
      | false ↦ search_loop fuel (h + 1) j ents want
    ] in
    if ltb i j then rest else i

-- The closure `try` at an index that is not below 0.
try : Index → List ℕ → List ℕ → ℕ → Found → Found
try ix ents tail i best =
    let start = at ents i in
    let l = match_len (drop start ix.src) tail in
    if leb (length ents) i
    then best
    else if ltb best.len l
    then record { pos = start; len = l }
    else best

-- `try(k - d); try(k + d - 1)`
try_both : Index → List ℕ → List ℕ → ℕ → ℕ → Found → Found
unfolding try match_len
try_both ix ents tail k d best =
    let below = if ltb k d then best else try ix ents tail (k - d) best in
    try ix ents tail (k + d - 1) below

-- `for _, d := range nearProbes`, over the entries `d` to 8.
near_probes : ℕ → ℕ → Index → List ℕ → List ℕ → ℕ → Found → Found
unfolding try_both
near_probes zero d ix ents tail k best = best
near_probes (suc n) d ix ents tail k best =
    near_probes n (d + 1) ix ents tail k (try_both ix ents tail k d best)

-- `for step, n := len(nearProbes), 0; n < ix.probe; step, n = step*4, n+1`
far_probes : ℕ → ℕ → Index → List ℕ → List ℕ → ℕ → Found → Found
unfolding try_both
far_probes zero step ix ents tail k best = best
far_probes (suc n) step ix ents tail k best =
    far_probes n (step * 4) ix ents tail k (try_both ix ents tail k step best)

abbrev pub nothing : Found
nothing = record { pos = 0; len = 0 }

-- The match at the hint itself, if it is long enough.
at_hint : Index → List ℕ → Hint → Found
unfolding match_len
at_hint ix tail no_preference = nothing
at_hint ix tail (from h) =
    let l = match_len (drop h ix.src) tail in
    if ltb h (length ix.src) && leb min_match l then record { pos = h; len = l } else nothing

wanted : Hint → ℕ → ℕ
wanted no_preference p = p
wanted (from h) p = h

-- All probes of the bucket `ents`, none of which is empty.
probe_bucket : Index → List ℕ → List ℕ → ℕ → Found → Found
unfolding near_probes far_probes search_loop
probe_bucket ix ents tail want best =
    let k = search_loop (length ents) 0 (length ents) ents want in
    let near = near_probes 8 1 ix ents tail k best in
    let far = far_probes ix.probe 8 ix ents tail k near in
    try ix ents tail (length ents - 1) (try ix ents tail 0 far)

long_enough : Found → Found
long_enough best = if ltb best.len min_match then nothing else best

-- The lookup among the entries `ents` of the bucket.
among : Index → List ℕ → ℕ → Hint → List ℕ → Found
unfolding probe_bucket at_hint wanted long_enough
among ix tail p hint ents =
    let best = at_hint ix tail hint in
    if length ents == 0
    then long_enough best
    else long_enough (probe_bucket ix ents tail (wanted hint p) best)

-- `ix.pos[ix.bucket[b]:ix.bucket[b+1]]` for the bucket of `tail`.
entries : Index → List ℕ → List ℕ
unfolding hash
entries ix tail = let b = hash ix.shift tail in slice (at ix.bucket b) (at ix.bucket (b + 1)) ix.pos

unfoldable pub find : Index → List ℕ → ℕ → Hint → Found
unfolding among entries
find ix dst p hint =
    let tail = drop p dst in
    if ltb (length dst) (p + 8) || length ix.pos == 0
    then nothing
    else among ix tail p hint (entries ix tail)
