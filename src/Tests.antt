-- ===== src/Tests.antt =====
-- Runs on concrete inputs, and each theorem at an input that meets its hypotheses.
mod Revert
mod Blob
mod Container
mod Frames
mod Plain
mod Codec
mod Agent
mod Shifttab
mod Go127
mod Publish
use go_binsync.Prelude.{
  ℕ, ◌-◌, ◌^◌, ◌<◌, ◌≡◌, refl, List, [], ◌∷◌, ◌++◌, Option, none, some, ok, panic, false, take,
  drop, replicate, All, arith, ◌>>=◌,
}
use mathlib.Core.Path.{subst}
use go_binsync.Varint.{put_uvarint, put_varint}
use go_binsync.Delta.Buf
use go_binsync.Delta.Buf.{reading}
use go_binsync.Delta.Buf.Put
use go_binsync.Delta.Buf.Laws.{bytes-put}
use go_binsync.Delta.Lz.Match.{from, find, new_index}
use go_binsync.Delta.Lz.Match.Indexed.{new_index_checked}
use go_binsync.Delta.Lz.Match.Checked.{find_checked}
use go_binsync.Delta.Lz.Emit.{emit}
use go_binsync.Delta.Lz.Apply
use go_binsync.Delta.Lz.Apply.{State}
use go_binsync.Delta.Lz.Apply.Ops.{op_bytes}
use go_binsync.Delta.Lz.Apply.Bounds.{IsComplete, apply-IsComplete, apply_panics}
use go_binsync.Delta.Lz.RoundTrip.{apply-emit}
use go_binsync.Delta.Correct.Encode.{encode_correction}
use go_binsync.Delta.Correct.Apply.{apply_correction}
use go_binsync.Delta.Correct.RoundTrip.{apply_correction-encode_correction}
use go_binsync.Release.Hash.{Hash, is_zero, parse_hash, to_string}
use go_binsync.Release.Hash.RoundTrip.{parse_hash-to_string}
use go_binsync.Release.Pointer.{Blob as FileBlob, Pointer, check_pointer}
use go_binsync.Release.Plan.{make_plan}
use go_binsync.Release.Plan.Cheapest.{IsCheapest, make_plan-IsCheapest}
use go_binsync.Release.Disk.{File, Disk}
use go_binsync.Release.Disk.Triples.{Ends}
use go_binsync.Release.Install.{install}
use go_binsync.Release.Install.Atomic.{Safe, Installed, install-Safe}

abbrev prediction : List ℕ
prediction = 1 ∷ 2 ∷ 3 ∷ 4 ∷ []

abbrev file : List ℕ
file = 1 ∷ 9 ∷ 3 ∷ 4 ∷ []

put_300 : put_uvarint 300 ≡ 172 ∷ 2 ∷ []
unfolding put_uvarint
put_300 = refl

-- One literal region: its gap is 1 and its span 1.
encode_small : encode_correction prediction file ≡ ok (4 ∷ 1 ∷ 2 ∷ 1 ∷ 1 ∷ 2 ∷ 9 ∷ [])
unfolding encode_correction Put.u put_uvarint emit find new_index put_varint
encode_small = refl

apply_correction-encode_correction_example :
    (encode_correction prediction file >>= apply_correction prediction) ≡ ok file
apply_correction-encode_correction_example =
    apply_correction-encode_correction prediction file refl (omega arith)

apply-emit_example :
    (take 0 (emit prediction file [] []).ctrl ≡ [])
    × (take 0 (emit prediction file [] []).lit ≡ [])
    × ((last : ℕ) × (Apply.apply prediction
            (drop 0 (emit prediction file [] []).ctrl ++ [])
            (drop 0 (emit prediction file [] []).lit ++ [])
            4
          ≡ ok (record { ctrl = []; lit = []; cursor = last; out = file; left = 0 })))
apply-emit_example = apply-emit prediction file [] [] [] [] (omega arith) (omega arith)

apply-IsComplete_example : IsComplete 4 (Apply.apply prediction (1 ∷ 3 ∷ 2 ∷ []) (7 ∷ []) 4)
apply-IsComplete_example = apply-IsComplete prediction (1 ∷ 3 ∷ 2 ∷ []) (7 ∷ []) 4 (omega arith)

apply_panics_example : Apply.apply prediction (op_bytes 0 1 (2 ^ 63 - 1) []) [] 4 ≡ panic
apply_panics_example =
    apply_panics prediction [] [] 1 (2 ^ 63 - 1) 4 (omega arith) (omega arith) (omega arith)
      (omega arith) (omega arith)

-- The entry at the place 0 is longer than the match at the hint.
find_longer :
    (new_index_checked (replicate 9 5) >>= λ ix. find_checked ix (replicate 12 5) 1 (from 2))
    ≡ ok (record { pos = 0; len = 9 })
unfolding new_index_checked find_checked
find_longer = refl

bytes-put_example : Buf.bytes (reading (Put.bytes [] file ++ (8 ∷ []))) ≡ (file, reading (8 ∷ []))
bytes-put_example = bytes-put file (8 ∷ []) (omega arith)

abbrev digest : ℕ → Hash
digest n = replicate 32 n

parse_hash-to_string_example : parse_hash (to_string (digest 7)) ≡ ok (digest 7)
parse_hash-to_string_example =
    parse_hash-to_string (digest 7) (record { size = refl; bytes = omega arith })

abbrev pointer : Pointer
pointer = record {
  format = 1;
  seq = 5;
  head = record { hash = digest 3; version = []; size = 100; blob = none };
  chain =
      record { source = digest 2; target = digest 3; key = 1 ∷ []; size = 10; b3 = digest 9 }
      ∷ record { source = digest 1; target = digest 2; key = 2 ∷ []; size = 20; b3 = digest 8 }
      ∷ [];
  etag = [];
}

-- With a blob of 40 bytes, where the two edges have 30.
abbrev with_blob : Pointer
with_blob = record pointer {
  head = record pointer.head { blob = some (record { key = 3 ∷ []; size = 40; frames = [] }) };
}

with_blob-small : (b : FileBlob) → with_blob.head.blob ≡ some b → b.size < 2 ^ 63
with_blob-small b e = subst (λ (x : FileBlob). x.size < 2 ^ 63) (some_inj e) (omega arith)
  where
    some_inj : {x y : FileBlob} → some x ≡ some y → x ≡ y
    some_inj h = cc

make_plan-IsCheapest_example : IsCheapest with_blob (digest 1) (make_plan with_blob (digest 1))
unfolding check_pointer is_zero
make_plan-IsCheapest_example =
    make_plan-IsCheapest with_blob (omega arith, (omega arith, tt)) with_blob-small with_blob
      (digest 1) refl

abbrev previous : Option File
previous = some (record { inode = 1; content = 4 ∷ []; symlink = false; world_writable = false })

abbrev disk : Disk
disk = record {
  path = previous;
  old = none;
  pending = none;
  failed = none;
  tmp = none;
  next_inode = 2;
}

-- The hash stands for any function of the bytes.
abbrev toy_hash : List ℕ → Hash
toy_hash b = b

-- The sixth call fails: Sync of the temp file.
abbrev faults : List (Option ℕ)
faults = none ∷ none ∷ none ∷ none ∷ none ∷ some 0 ∷ []

install-Safe_example :
    let r = install toy_hash file file (record { disk = disk; seen = []; faults = faults }) in
    All (Safe toy_hash file file previous) r.1.seen
    × Ends
        (λ _. Installed toy_hash file file previous)
        (λ _. Safe toy_hash file file previous)
        r.0
        r.1.disk
install-Safe_example = install-Safe toy_hash file file disk faults
