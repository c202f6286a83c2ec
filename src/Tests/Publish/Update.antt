-- ===== src/Tests/Publish/Update.antt =====
-- The pointers that the two publishes leave, and the update.
use go_binsync.Prelude.{
  ℕ, ◌^◌, ◌≡◌, ◌⊎◌, refl, ap, true, false, List, [], ◌∷◌, Option, none, some, Result, ok, err,
  replicate, arith,
}
use go_binsync.Int64.{le64, add64}
use go_binsync.Release.Hash.{bytes_eq}
use go_binsync.Release.Pointer.{Blob, Edge, Pointer, parse_pointer, patch_key, blob_key}
use go_binsync.Release.Plan.{make_plan, find_chain, chain_plan, plan_chain}
use go_binsync.Agent.Fetch.{FetchError, not_found, no_blob, Link, build}
use go_binsync.Publish.{pointer_key}
use go_binsync.Publish.Store.{Object}
use go_binsync.Publish.Right.{Follows}
use go_binsync.Publish.Reach.{Reach-Published, Published, Step-Follows, same}
use go_binsync.Publish.Update.{Sees, build-published}
use go_binsync.Tests.Publish.Json.{marshal, unmarshal}
use go_binsync.Tests.Publish.Site.{
  file, name, calls, setting, setting-IsSetting, setting-IsPlainSetting,
}
use go_binsync.Tests.Publish.Trace.{first_publish, second_publish, replacing}

abbrev new_blob : Blob
new_blob = record {
  key = blob_key (name true);
  size = 151;
  frames = record { off = 0; len = 151; zoff = 0; zlen = 151; codec = 0; b3 = name true } ∷ [];
}

abbrev edge : Edge
edge = record {
  source = name false;
  target = name true;
  key = patch_key (name false) (name true);
  size = 122;
  b3 = replicate 32 9;
}

abbrev new_pointer : Pointer
new_pointer = record {
  format = 1;
  seq = 1001;
  head = record { hash = name true; version = []; size = 151; blob = some new_blob };
  chain = edge ∷ [];
  etag = [];
}

abbrev object : Object
object = record { body = marshal new_pointer; etag = marshal new_pointer }

abbrev old_blob : Blob
old_blob = record {
  key = blob_key (name false);
  size = 150;
  frames = record { off = 0; len = 150; zoff = 0; zlen = 150; codec = 0; b3 = name false } ∷ [];
}

abbrev old_pointer : Pointer
old_pointer = record {
  format = 1;
  seq = 1000;
  head = record { hash = name false; version = []; size = 150; blob = some old_blob };
  chain = [];
  etag = [];
}

abbrev old_object : Object
old_object = record { body = marshal old_pointer; etag = marshal old_pointer }

old_object-stored : replacing.before.store pointer_key ≡ some old_object
unfolding replacing
old_object-stored = refl

object-replaces : replacing.after.store pointer_key ≡ some object
unfolding replacing
object-replaces = refl

object-stored : second_publish.last.store pointer_key ≡ some object
unfolding second_publish
object-stored = refl

object-parsed : parse_pointer unmarshal object.body ≡ ok new_pointer
unfolding first_publish
object-parsed = refl

Reach-Published_example :
    (p : Pointer) × (parse_pointer unmarshal object.body ≡ ok p)
    × Published setting setting-IsSetting second_publish.last.store p
Reach-Published_example =
    Reach-Published setting setting-IsSetting second_publish.last object second_publish.reach
      object-stored

Step-Follows_example :
    (p : Pointer) × (o' : Object) × (q : Pointer) × (parse_pointer unmarshal old_object.body ≡ ok p)
    × (replacing.after.store pointer_key ≡ some o')
    × (parse_pointer unmarshal o'.body ≡ ok q)
    × ((o' ≡ old_object) ⊎ Follows p q)
Step-Follows_example =
    Step-Follows setting setting-IsSetting replacing.before replacing.after old_object
      replacing.reach replacing.step old_object-stored

abbrev answer : Option Object → Result FetchError (List ℕ)
answer none = err not_found
answer (some o) = ok o.body

-- A target that reads the store after both publishes.
abbrev target : Link
target = record {
  calls = calls;
  max = 2 ^ 40;
  get = λ n key. answer (second_publish.last.store key);
  waits = λ n key. true;
  file = ok (file false);
  fetch_blob = λ head blob. err no_blob;
}

target-Sees : Sees setting second_publish.last.store target
target-Sees = record { same_calls = refl; answers = λ key o h. ap answer h; small = omega arith }

plan-IsChain : (make_plan new_pointer (name false)).kind ≡ plan_chain
unfolding make_plan find_chain chain_plan bytes_eq le64 add64
plan-IsChain = refl

file-content : file false ≡ setting.content (name false)
unfolding bytes_eq
file-content = refl

build-published_example :
    build target new_pointer (make_plan new_pointer (name false)) ≡ ok (setting.content (name true))
build-published_example =
    build-published setting second_publish.last second_publish.last object new_pointer target
      (name false) setting-IsSetting setting-IsPlainSetting second_publish.reach same object-stored
      object-parsed target-Sees (false, refl) (ap ok file-content) (omega arith, tt) plan-IsChain
