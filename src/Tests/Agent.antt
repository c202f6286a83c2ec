-- ===== src/Tests/Agent.antt =====
-- The update loop.
use go_binsync.Prelude.{
  Outcome as Ending, ◌≢◌, stuck, ℕ, ◌*◌, ◌%◌, ◌^◌, ◌≡◌, refl, inl, min, false, true, All, List, [],
  ◌∷◌, ◌++◌, none, some, ok, err, length, drop, replicate, arith,
}
use go_binsync.Int64.{add64, lt64}
use go_binsync.Varint.{put_uvarint, put_varint}
use go_binsync.Cz.{Codecs, compress}
use go_binsync.Cz.RoundTrip.{IsLossless}
use go_binsync.Delta.Buf.Put
use go_binsync.Delta.Errors.{unsupported}
use go_binsync.Delta.Lz.Match.{find, new_index}
use go_binsync.Delta.Container.{marshal_header}
use go_binsync.Delta.Container.Body.{frame_body, add_frame}
use go_binsync.Delta.Plain.Runs.{write}
use go_binsync.Delta.Plain.Encode.{encode_plain}
use go_binsync.Delta.Codec.Verified.{IsPromised, apply-IsPromised}
use go_binsync.Delta.Container.{Header}
use go_binsync.Delta.Codec
use go_binsync.Delta.Codec.{Options, Calls, encode}
use go_binsync.Release.Hash.{zero_hash, to_string, is_zero}
use go_binsync.Release.Pointer.{Edge, Head, Pointer, check_pointer, parse_pointer}
use go_binsync.Release.Plan.{Plan, plan_chain}
use go_binsync.Release.Disk.{Disk, done}
use go_binsync.Release.Disk.Triples.{Ends}
use go_binsync.Agent.Fetch.{Link, not_found, build}
use go_binsync.Agent.Fetch.Chain.{IsEdge, here, step, build-Leads}
use go_binsync.Agent.{
  Outcome, Agent, World, object, built, current_hash, place, cycle, wait_for, run,
}
use go_binsync.Agent.Always.{Always}
use go_binsync.Agent.Loop.{IsCycle, cycle-IsCycle}
use go_binsync.Agent.Waits.{wait_for-power, IsRun, run-IsRun}
use go_binsync.Agent.Older.{cycle-ignores}
use go_binsync.Agent.Safe.{IsPath, Ended, place-Sound}

abbrev codecs : Codecs
codecs = record {
  zstd_encode = λ b. 200 ∷ b;
  zstd_decode = λ b. some (drop 1 b);
  brotli_encode = λ q b. none;
  brotli_decode = λ b. none;
}

codecs-IsLossless : IsLossless codecs
codecs-IsLossless = record { zstd_back = λ b. refl; brotli_back = λ q b z e. cc }

abbrev calls : Calls
calls = record {
  codecs = codecs;
  hash_of = λ b. replicate 32 (length b % 256);
  encode_go = λ old new o. err unsupported;
  apply_go = λ old body h. err unsupported;
}

abbrev options : Options
options = record { max_transform = 0; plain_only = true }

abbrev old_file : List ℕ
old_file = 1 ∷ 2 ∷ 3 ∷ []

abbrev new_file : List ℕ
new_file = 1 ∷ 2 ∷ 9 ∷ 4 ∷ []

-- Header, frame and body.
abbrev patch : List ℕ
patch =
    66
    ∷ 83
    ∷ 90
    ∷ 49
    ∷ 0
    ∷ 0
    ∷ 103
    ∷ (replicate 32 3
        ++ (replicate 32 4
            ++ (3
                ∷ 4
                ∷ 1
                ∷ 0
                ∷ 9
                ∷ 9
                ∷ 0
                ∷ (replicate 32 9 ++ (1 ∷ 3 ∷ 0 ∷ 2 ∷ 2 ∷ 2 ∷ 3 ∷ 9 ∷ 4 ∷ [])))))

encode_small : encode calls old_file new_file options ≡ ok patch
unfolding encode encode_plain marshal_header frame_body compress find new_index put_uvarint
    put_varint add64 Put.u Put.s Put.raw write add_frame
encode_small = refl

declines : (old body : List ℕ) (h : Header) → calls.apply_go old body h ≢ stuck
declines old body h e = cc

-- Of a patch that Apply takes.
apply-IsPromised_example :
    Ending (IsPromised calls old_file patch) (Codec.apply calls old_file patch)
apply-IsPromised_example = apply-IsPromised calls declines old_file patch

abbrev edge : Edge
edge = record {
  source = replicate 32 3;
  target = replicate 32 4;
  key = 1 ∷ [];
  size = 119;
  b3 = replicate 32 119;
}

abbrev link : Link
link = record {
  calls = calls;
  max = 1000;
  get = λ tries key. ok patch;
  waits = λ tries key. true;
  file = ok old_file;
  fetch_blob = λ head blob. err not_found;
}

edge-IsEdge : IsEdge link edge old_file new_file
edge-IsEdge = record {
  options = options;
  plain = inl refl;
  patch = patch;
  made = encode_small;
  digest = refl;
  size = refl;
  fits = omega arith;
  stored = refl;
}

abbrev head : Head
head = record { hash = replicate 32 4; version = []; size = 4; blob = none }

abbrev pointer_at_head : Pointer
pointer_at_head = record { format = 1; seq = 7; head = head; chain = edge ∷ []; etag = [] }

abbrev plan : Plan
plan = record {
  kind = plan_chain;
  edges = edge ∷ [];
  blob = none;
  bytes = 119;
  head = replicate 32 4;
  at_head = false;
}

build-Leads_example : build link pointer_at_head plan ≡ ok new_file
build-Leads_example =
    build-Leads link pointer_at_head plan old_file new_file
      (record { lossless = codecs-IsLossless; digests = λ b. refl }) (omega arith) refl refl
      (record { bytes = omega arith; size = omega arith })
      (step old_file new_file new_file edge [] (record { bytes = omega arith; size = omega arith })
        edge-IsEdge (here new_file))

abbrev world : World
world = record {
  max = 1000;
  hash_of = calls.hash_of;
  unmarshal = λ b. some pointer_at_head;
  cached_hash = done (replicate 32 3);
  get = λ etag. object (some []) (5 ∷ []);
  build = λ p plan d. built new_file;
  restart = none;
  checks =
      some
        (record { passed = false; in_time = true } ∷ record { passed = true; in_time = true } ∷ []);
}

abbrev agent : Agent
agent = record { etag = []; seq = 3; skipped = zero_hash }

cycle-IsCycle_example : Always (IsCycle agent) (cycle world agent)
cycle-IsCycle_example = cycle-IsCycle world agent

run-IsRun_example : Always (IsRun 5 2 agent) (run 5 (world ∷ world ∷ []) 0 agent)
run-IsRun_example = run-IsRun 5 (world ∷ world ∷ []) 0 agent

wait_for-power_example : wait_for 5 60 3 ≡ min (5 * 2 ^ 3) 60
wait_for-power_example = wait_for-power 5 60 3

-- The release of the pointer has been rolled back.
abbrev marked_disk : Disk
marked_disk = record {
  path = none;
  old = none;
  pending = none;
  failed = some (to_string (replicate 32 4));
  tmp = none;
  next_inode = 2;
}

-- The pointer has the sequence number 7.
abbrev ahead : Agent
ahead = record { etag = []; seq = 9; skipped = zero_hash }

cycle-ignores_example :
    cycle world ahead (record { disk = marked_disk; seen = []; faults = some 0 ∷ [] }) ≡ (
      done (Outcome.at_head, record ahead { etag = 5 ∷ [] }),
      record { disk = marked_disk; seen = []; faults = some 0 ∷ [] },
    )
unfolding current_hash check_pointer lt64 is_zero parse_pointer
cycle-ignores_example =
    cycle-ignores world ahead (replicate 32 3) [] (5 ∷ []) pointer_at_head
      (record { disk = marked_disk; seen = []; faults = some 0 ∷ [] }) refl refl refl refl refl

place-Sound_example :
    let r =
      place world
        (replicate 32 4)
        (built new_file)
        (record { disk = marked_disk; seen = []; faults = none ∷ some 0 ∷ [] }) in
    All (IsPath calls.hash_of new_file (replicate 32 4) none) r.1.seen
    × Ends
        (Ended calls.hash_of new_file (replicate 32 4) none)
        (λ _. IsPath calls.hash_of new_file (replicate 32 4) none)
        r.0
        r.1.disk
place-Sound_example =
    place-Sound world (λ m e. absurd cc) new_file (replicate 32 4) marked_disk (none ∷ some 0 ∷ [])
