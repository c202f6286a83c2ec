-- ===== src/Cz.antt =====
-- internal/cz/cz.go. Zstandard and Brotli are parameters: what their calls return.
pub mod RoundTrip
use go_binsync.Prelude.{
  ℕ, ◌*◌, ◌^◌, Bool, true, false, List, Option, none, some, Result, ok, err, ◌>>=◌, length, ltb,
  ◌==◌, if◌then◌else◌,
}
use go_binsync.Varint.{is_neg}

-- `zstd_decode` is DecodeAll. `brotli_encode` is Write and Close at a quality, none where one fails;
-- `brotli_decode` what the reader yields before it ends, none where it ends in an error.
pub record Codecs : Type 0 where
  pub zstd_encode : List ℕ → List ℕ
  pub zstd_decode : List ℕ → Option (List ℕ)
  pub brotli_encode : ℕ → List ℕ → Option (List ℕ)
  pub brotli_decode : List ℕ → Option (List ℕ)

abbrev pub raw : ℕ
raw = 0

abbrev pub zstd : ℕ
zstd = 1

abbrev pub brotli : ℕ
brotli = 2

-- In bytes.
abbrev pub max_memory : ℕ
max_memory = 4 * 2 ^ 30

abbrev pub brotli_max : ℕ
brotli_max = 4 * 2 ^ 20

pub record Packed : Type 0 where
  pub codec : ℕ
  pub bytes : List ℕ

-- `len(z) < len(out)`
unfoldable pub smaller : ℕ → List ℕ → Packed → Packed
smaller tag z p = if ltb (length z) (length p.bytes) then record { codec = tag; bytes = z } else p

unfoldable pub try_brotli : Option (List ℕ) → Packed → Packed
unfolding smaller
try_brotli none p = p
try_brotli (some z) p = smaller brotli z p

unfoldable pub compress : Codecs → List ℕ → Packed
unfolding smaller try_brotli
compress c src =
    let q = if ltb brotli_max (length src) then 10 else 11 in
    try_brotli (c.brotli_encode q src)
      (smaller zstd (c.zstd_encode src) (record { codec = raw; bytes = src }))

-- An output that is longer than it should be is refused by readAll or by the check behind it.
pub data CzError : Type 0 where
  negative_length unknown_codec bad_stream : CzError

abbrev pub sized : ℕ → Option (List ℕ) → Result CzError (List ℕ)
sized n none = err bad_stream
sized n (some out) = if length out == n then ok out else err bad_stream

-- WithDecoderMaxMemory(4<<30): a longer output is an error.
abbrev pub within_memory : Option (List ℕ) → Option (List ℕ)
within_memory none = none
within_memory (some b) = if ltb max_memory (length b) then none else some b

-- `n` is an int.
unfoldable pub decompress : Codecs → ℕ → List ℕ → ℕ → Result CzError (List ℕ)
decompress c codec src n =
    if is_neg n
    then err negative_length
    else if codec == raw
    then sized n (some src)
    else if codec == zstd
    then sized n (within_memory (c.zstd_decode src))
    else if codec == brotli
    then sized n (c.brotli_decode src)
    else err unknown_codec
