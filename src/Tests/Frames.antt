-- ===== src/Tests/Frames.antt =====
-- A pass over three frames that arrive out of order.
use go_binsync.Prelude.{
  ℕ, ◌≡◌, refl, inl, true, false, List, [], ◌∷◌, none, some, ok, drop, replicate, arith,
}
use go_binsync.Cz.{Codecs, compress, decompress}
use go_binsync.Cz.RoundTrip.{IsLossless}
use go_binsync.Release.Hash.{Hash, bytes_eq}
use go_binsync.Release.Pointer.{Blob, Head}
use go_binsync.Release.Blob.{encode_blob, decode_frame}
use go_binsync.Agent.Frames.{
  Requests, fetch_frame, frame_loop, copy_frame, Pass, start_pass, absent, contains, without, Reach,
  begin, later, taken, arrived, fetch_start,
}
use go_binsync.Agent.Frames.Encoded.{fetch_blob-encode_blob}

-- The compressor of zstd leaves the bytes as they are.
abbrev codecs : Codecs
codecs = record {
  zstd_encode = λ b. 200 ∷ b;
  zstd_decode = λ b. some (drop 1 b);
  brotli_encode = λ q b. none;
  brotli_decode = λ b. none;
}

codecs-IsLossless : IsLossless codecs
codecs-IsLossless = record { zstd_back = λ b. refl; brotli_back = λ q b z e. cc }

abbrev toy_hash : List ℕ → Hash
toy_hash b = b

abbrev content : List ℕ
content = 1 ∷ 2 ∷ 3 ∷ 4 ∷ 5 ∷ []

abbrev blob : Blob
blob = (encode_blob codecs toy_hash [] content 2).1

abbrev head : Head
head = record { hash = []; version = []; size = 5; blob = some blob }

abbrev with_done : List ℕ → Requests
with_done z = record { get = λ n. ok z; waits = λ n. true }

abbrev Run : Pass → Type 0
Run p = Reach codecs toy_hash blob (replicate 5 0) p

record Ran : Type 0 where
  p : Pass
  run : Run p

-- The frames 0 and 1 are taken, 1 arrives, 2 is taken, 0 and 2 arrive.
ran : Ran
unfolding start_pass absent frame_loop fetch_frame decode_frame bytes_eq copy_frame encode_blob
    contains without compress decompress
ran = record {
  p = _;
  run =
      later
        (later
          (later
            (later
              (later (later (begin false) (taken 0 (1 ∷ 2 ∷ []) refl (omega arith) refl))
                (taken 1 (2 ∷ []) refl (omega arith) refl))
              (arrived 1 _ (with_done (3 ∷ 4 ∷ [])) (3 ∷ 4 ∷ []) refl refl refl))
            (taken 2 [] refl (omega arith) refl))
          (arrived 0 _ (with_done (1 ∷ 2 ∷ [])) (1 ∷ 2 ∷ []) refl refl refl))
        (arrived 2 _ (with_done (5 ∷ [])) (5 ∷ []) refl refl refl);
}

fetch_blob-encode_blob_example :
    (fetch_start codecs toy_hash blob head ≡ ok (replicate 5 0)) × (ran.p.out ≡ content)
unfolding ran
fetch_blob-encode_blob_example =
    fetch_blob-encode_blob codecs codecs-IsLossless toy_hash content 2 (omega arith) (omega arith)
      (omega arith) [] head ran.p (λ i z e. e) refl ran.run (refl, inl refl) refl
