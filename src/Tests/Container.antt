-- ===== src/Tests/Container.antt =====
-- A patch header with two frames, and the body of a patch.
use go_binsync.Prelude.{
  ℕ, ◌-◌, ◌≡◌, refl, List, [], ◌∷◌, ◌++◌, none, some, ok, drop, length, replicate, arith,
}
use go_binsync.Cz.{Codecs}
use go_binsync.Cz.RoundTrip.{IsLossless}
use go_binsync.Release.Hash.{Hash}
use go_binsync.Delta.Container.Body.{frame_body, read_body}
use go_binsync.Delta.Container.Body.RoundTrip.{read_body-frame_body}
use go_binsync.Delta.Container.{Frame, Header, marshal_header, parse_header}
use go_binsync.Delta.Container.RoundTrip.{IsFrame, IsHeader, parse_header-marshal_header}

abbrev first_frame : Frame
first_frame = record { off = 0; len = 300; zlen = 200; codec = 2; b3 = replicate 32 1 }

abbrev second_frame : Frame
second_frame = record { off = 300; len = 7; zlen = 7; codec = 0; b3 = replicate 32 2 }

abbrev header : Header
header = record {
  transform = 1;
  flags = 0;
  source = replicate 32 8;
  target = replicate 32 9;
  old_size = 1000;
  new_size = 1010;
  frames = first_frame ∷ second_frame ∷ [];
  body_off = 0;
}

first_frame-IsFrame : IsFrame first_frame
first_frame-IsFrame = record {
  off_le = omega arith;
  len_le = omega arith;
  zlen_le = omega arith;
  b3_size = refl;
}

second_frame-IsFrame : IsFrame second_frame
second_frame-IsFrame = record {
  off_le = omega arith;
  len_le = omega arith;
  zlen_le = omega arith;
  b3_size = refl;
}

header-IsHeader : IsHeader header
header-IsHeader = record {
  source_size = refl;
  target_size = refl;
  old_le = omega arith;
  new_le = omega arith;
  count_le = omega arith;
  contiguous = (first_frame-IsFrame, refl, (second_frame-IsFrame, refl, tt));
}

parse_header-marshal_header_example :
    parse_header (marshal_header header (1 ∷ 2 ∷ []))
    ≡ ok (record header { body_off = length (marshal_header header (1 ∷ 2 ∷ [])) - 2 })
parse_header-marshal_header_example =
    parse_header-marshal_header header (1 ∷ 2 ∷ []) header-IsHeader

-- Compressors that do not gain anything.
abbrev codecs : Codecs
codecs = record {
  zstd_encode = λ b. 200 ∷ b;
  zstd_decode = λ b. some (drop 1 b);
  brotli_encode = λ q b. none;
  brotli_decode = λ b. none;
}

codecs-IsLossless : IsLossless codecs
codecs-IsLossless = record { zstd_back = λ b. refl; brotli_back = λ q b z e. cc }

abbrev toy_hash : List ℕ → Hash
toy_hash b = b

abbrev body : List ℕ
body = 5 ∷ 6 ∷ 7 ∷ []

abbrev header_of_body : Header
header_of_body = record header { frames = (frame_body codecs toy_hash body).0; body_off = 2 }

read_body-frame_body_example :
    read_body codecs toy_hash header_of_body ((1 ∷ 2 ∷ []) ++ (frame_body codecs toy_hash body).1)
    ≡ ok body
read_body-frame_body_example =
    read_body-frame_body codecs toy_hash header_of_body (1 ∷ 2 ∷ []) body codecs-IsLossless
      (omega arith) (omega arith) refl refl
