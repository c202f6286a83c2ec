-- ===== src/Tests/Codec.antt =====
-- Encode and Apply, with a hash and compressors that are small functions.
use go_binsync.Prelude.{
  ℕ, ◌%◌, ◌≡◌, refl, inr, false, List, [], ◌∷◌, none, some, ok, err, ◌>>=◌, length, drop, replicate,
  arith,
}
use go_binsync.Cz.{Codecs}
use go_binsync.Cz.RoundTrip.{IsLossless}
use go_binsync.Delta.Errors.{unsupported}
use go_binsync.Delta.Codec.{or_plain, make_body, Options, Calls, encode, apply}
use go_binsync.Delta.Codec.RoundTrip.{apply-encode, make_body-go}

abbrev codecs : Codecs
codecs = record {
  zstd_encode = λ b. 200 ∷ b;
  zstd_decode = λ b. some (drop 1 b);
  brotli_encode = λ q b. none;
  brotli_decode = λ b. none;
}

codecs-IsLossless : IsLossless codecs
codecs-IsLossless = record { zstd_back = λ b. refl; brotli_back = λ q b z e. cc }

-- The Go-aware transform declines every file.
abbrev calls : Calls
calls = record {
  codecs = codecs;
  hash_of = λ b. replicate 32 (length b % 256);
  encode_go = λ old new o. err unsupported;
  apply_go = λ old body h. err unsupported;
}

abbrev options : Options
options = record { max_transform = 0; plain_only = false }

abbrev old_file : List ℕ
old_file = 1 ∷ 2 ∷ 3 ∷ 4 ∷ 5 ∷ []

abbrev new_file : List ℕ
new_file = 1 ∷ 9 ∷ 3 ∷ 4 ∷ 5 ∷ 6 ∷ []

apply-encode_example :
    (encode calls old_file new_file options >>= apply calls old_file) ≡ ok new_file
apply-encode_example =
    apply-encode calls old_file new_file options
      (record { lossless = codecs-IsLossless; digests = λ b. refl }) (inr refl) (omega arith)
      (omega arith) (omega arith) (omega arith)

make_body-go_example :
    make_body calls old_file new_file options
    ≡ or_plain old_file new_file (calls.encode_go old_file new_file options)
make_body-go_example = make_body-go calls old_file new_file options refl
