-- ===== src/Tests/Blob.antt =====
-- Blobs and the compressors at concrete inputs.
use go_binsync.Prelude.{
  ℕ, ◌^◌, ◌≤◌, ◌≡◌, refl, List, [], ◌∷◌, none, some, ok, drop, length, replicate, All, arith,
}
use go_binsync.Cz.{Codecs, compress, decompress}
use go_binsync.Cz.RoundTrip.{IsLossless, decompress-compress}
use go_binsync.Release.Hash.{Hash}
use go_binsync.Release.Pointer.{Frame, Blob}
use go_binsync.Release.Blob.{encode_blob, plain_size, check, check_frames, out_of_order}
use go_binsync.Release.Blob.Check.{Inside, check-Inside, check-unbounded}
use go_binsync.Release.Blob.RoundTrip.{decode_all, decode_all-encode_blob}

-- A compressor that puts a byte in front, and one that fails.
abbrev codecs : Codecs
codecs = record {
  zstd_encode = λ b. 200 ∷ b;
  zstd_decode = λ b. some (drop 1 b);
  brotli_encode = λ q b. none;
  brotli_decode = λ b. none;
}

codecs-IsLossless : IsLossless codecs
codecs-IsLossless = record { zstd_back = λ b. refl; brotli_back = λ q b z e. cc }

abbrev toy_hash : List ℕ → Hash
toy_hash b = b

abbrev content : List ℕ
content = 1 ∷ 2 ∷ 3 ∷ 4 ∷ 5 ∷ []

decompress-compress_example :
    (decompress codecs (compress codecs content).codec (compress codecs content).bytes 5
      ≡ ok content)
    × (length (compress codecs content).bytes ≤ 5)
decompress-compress_example = decompress-compress codecs content codecs-IsLossless (omega arith)

decode_all-encode_blob_example :
    let (object, blob) = encode_blob codecs toy_hash (replicate 32 1) content 2 in
    (check blob ≡ ok tt)
    × (plain_size blob ≡ 5)
    × (decode_all codecs toy_hash object blob.frames ≡ ok content)
decode_all-encode_blob_example =
    decode_all-encode_blob codecs toy_hash (replicate 32 1) content 2 codecs-IsLossless
      (omega arith) (omega arith) (omega arith)

abbrev first_frame : Frame
first_frame = record { off = 0; len = 2; zoff = 0; zlen = 3; codec = 0; b3 = [] }

abbrev second_frame : Frame
second_frame = record { off = 2; len = 1; zoff = 3; zlen = 1; codec = 0; b3 = [] }

abbrev two_frames : Blob
two_frames = record { key = []; size = 4; frames = first_frame ∷ second_frame ∷ [] }

two_frames-pass : check two_frames ≡ ok tt
unfolding check check_frames out_of_order
two_frames-pass = refl

check-Inside_example : All (Inside (plain_size two_frames)) two_frames.frames
check-Inside_example =
    check-Inside two_frames (omega arith, (omega arith, tt)) (omega arith) two_frames-pass

check-unbounded_example :
    check (record { key = []; size = 2 ^ 62; frames = record first_frame { zlen = 2 ^ 62 } ∷ [] })
    ≡ ok tt
check-unbounded_example =
    check-unbounded first_frame [] (2 ^ 62) (omega arith) refl refl (omega arith)
