-- ===== src/Cz/RoundTrip.antt =====
-- Decompress reverses Compress.
use go_binsync.Prelude.{
  ℕ, ◌≡◌, ◌≤◌, refl, List, Option, none, some, ok, length, ltb, false, inl, inr, Bool-cases, arith,
}
use go_binsync.Cz.{
  Codecs, Packed, max_memory, raw, zstd, brotli, smaller, try_brotli, compress, sized, decompress,
}

-- What the compressors promise of their own streams.
pub record IsLossless (c : Codecs) : Type 0 where
  pub zstd_back : (b : List ℕ) → c.zstd_decode (c.zstd_encode b) ≡ some b
  pub brotli_back :
      (q : ℕ) (b z : List ℕ) → c.brotli_encode q b ≡ some z → c.brotli_decode z ≡ some b

module _ (c : Codecs) (lossless : IsLossless c) (src : List ℕ)
    (small : length src ≤ max_memory) where
  abbrev Good : Packed → Type 0
  Good p = (decompress c p.codec p.bytes (length src) ≡ ok src) × (length p.bytes ≤ length src)

  sized-src : sized (length src) (some src) ≡ ok src
  sized-src = ground arith

  raw-Good : Good (record { codec = raw; bytes = src })
  unfolding decompress
  raw-Good = (ground (arith, sized-src), omega arith)

  smaller-Good :
      (tag : ℕ) (z : List ℕ) (p : Packed)
      → decompress c tag z (length src) ≡ ok src
      → Good p
      → Good (smaller tag z p)
  unfolding smaller
  smaller-Good tag z p h g = elim (Bool-cases (ltb (length z) (length p.bytes))) [
    | inl less ↦ rw less (h, ground arith)
    | inr not_less ↦ rw not_less g
  ]

  zstd-back : decompress c zstd (c.zstd_encode src) (length src) ≡ ok src
  unfolding decompress
  zstd-back = rw (lossless.zstd_back src) (
      let fits : ltb max_memory (length src) ≡ false = ground arith in
      rw fits (ground (arith, sized-src)))

  try_brotli-Good :
      (q : ℕ) (o : Option (List ℕ)) (p : Packed)
      → c.brotli_encode q src ≡ o
      → Good p
      → Good (try_brotli o p)
  unfolding try_brotli
  try_brotli-Good q none p e g = g
  try_brotli-Good q (some z) p e g = smaller-Good brotli z p back g
    where
      back : decompress c brotli z (length src) ≡ ok src
      back = unfold decompress in rw (lossless.brotli_back q src z e) (ground (arith, sized-src))

  compress-Good : Good (compress c src)
  unfolding compress
  compress-Good =
      try_brotli-Good _ _ _ refl (smaller-Good zstd (c.zstd_encode src) _ zstd-back raw-Good)

-- Decompress reverses Compress, whichever codec is the smallest, for compressors that give back
-- what they are given and an input of up to 4 GiB; and Compress returns at most as many bytes as it is given.
pub decompress-compress :
    (c : Codecs) (src : List ℕ)
    → IsLossless c
    → length src ≤ max_memory
    → (decompress c (compress c src).codec (compress c src).bytes (length src) ≡ ok src)
      × (length (compress c src).bytes ≤ length src)
decompress-compress c src lossless small = compress-Good c lossless src small
