-- ===== src/Publish/Store.antt =====
-- The store that store/store.go promises, with any number of publishers: the calls of different
-- publishers take turns in any order, each may fail, with its effect or without, and a publisher may
-- stop anywhere and another be started.
use go_binsync.Prelude.{
  ℕ, ◌+◌, ◌^◌, ◌<◌, ◌≡◌, ◌≢◌, List, [], Option, none, some, drop, slice, ◌==◌, if◌then◌else◌,
}
use native.Mathlib.Decide.{ℕ_discrete}
use mathlib.Core.Logic.{ite}
use go_binsync.Release.Hash.{Hash, bytes_eq}
use go_binsync.Publish.Program.{
  Prog, get, put, read_cache, write_cache, now, Answer, found, missing, broken, PutAnswer, done,
  Site,
}
use go_binsync.Publish.{run}

pub record Object : Type 0 where
  pub body : List ℕ
  pub etag : List ℕ

abbrev pub Store : Type 0
Store = List ℕ → Option Object

unfoldable pub write : Store → List ℕ → Object → Store
unfolding bytes_eq
write s key o k = if bytes_eq k key then some o else s k

-- No object has the empty ETag.
abbrev pub etag_of : Option Object → List ℕ
etag_of none = []
etag_of (some o) = o.etag

-- PutOptions.IfMatch
abbrev pub Allowed : Option (List ℕ) → Option Object → Type 0
Allowed none o = Unit
Allowed (some tag) o = etag_of o ≡ tag

-- GetOptions.Off and Len
abbrev pub cut : Option (ℕ × ℕ) → List ℕ → List ℕ
cut none b = b
cut (some (off, len)) b = if len == 0 then drop off b else slice off (off + len) b

abbrev pub IsAnswer : Store → List ℕ → Option (ℕ × ℕ) → Answer → Type 0
IsAnswer s key range (found b tag) =
    (o : Object) × (s key ≡ some o) × (b ≡ cut range o.body) × (tag ≡ o.etag)
IsAnswer s key range missing = s key ≡ none
IsAnswer s key range broken = Unit

-- An ETag identifies one version of an object: `version_of` is the body that it stands for.
pub record IsVersion (version_of : List ℕ → List ℕ) (o : Object) : Type 0 where
  pub body : version_of o.etag ≡ o.body
  pub tagged : o.etag ≢ []

-- One call. A Put may take effect and be answered by an error.
pub data Call {A : Type 0} (version_of : List ℕ → List ℕ)
    : Store → Prog A → Store → Prog A → Type 0 where
  got :
      {s : Store} {key : List ℕ} {range : Option (ℕ × ℕ)} {k : Answer → Prog A}
      → (a : Answer) → IsAnswer s key range a
      → Call version_of s (get key range k) s (k a)
  written :
      {s : Store} {key body : List ℕ} {im : Option (List ℕ)} {k : PutAnswer → Prog A}
      → (tag : List ℕ) (a : PutAnswer) → Allowed im (s key)
      → IsVersion version_of (record { body = body; etag = tag })
      → Call version_of s
          (put key body im k)
          (write s key (record { body = body; etag = tag }))
          (k a)
  refused :
      {s : Store} {key body : List ℕ} {im : Option (List ℕ)} {k : PutAnswer → Prog A}
      → (a : PutAnswer) → a ≢ done
      → Call version_of s (put key body im k) s (k a)
  cache_read :
      {s : Store} {h : Hash} {k : Option (List ℕ) → Prog A}
      → (b : Option (List ℕ)) → Call version_of s (read_cache h k) s (k b)
  cache_written :
      {s : Store} {h : Hash} {b : List ℕ} {k : Prog A} → Call version_of s (write_cache h b k) s k
  clock : {s : Store} {k : ℕ → Prog A} → (t : ℕ) → t < 2 ^ 64 → Call version_of s (now k) s (k t)

-- The releases that are ever published, by their hashes; their contents; and what the publishers
-- share.
pub record Setting : Type 1 where
  pub site : Site
  pub version_of : List ℕ → List ℕ
  pub Release : Hash → Type 0
  pub content : Hash → List ℕ

pub record System : Type 0 where
  pub store : Store
  pub publishers : ℕ → Prog (Unit {0})

abbrev pub update : (ℕ → Prog (Unit {0})) → ℕ → Prog (Unit {0}) → ℕ → Prog (Unit {0})
update f i q j = ite (ℕ_discrete i j) q (f j)

pub data Step (w : Setting) : System → System → Type 0 where
  turn :
      {s : System} (i : ℕ) {t : Store} {q : Prog (Unit {0})}
      → Call w.version_of s.store (s.publishers i) t q
      → Step w s (record { store = t; publishers = update s.publishers i q })
  start :
      {s : System} (i : ℕ) (bin version : List ℕ)
      → w.Release (w.site.calls.hash_of bin)
      → Step w s (record s { publishers = update s.publishers i (run w.site bin version) })

-- The states that the steps lead to, from an empty store without publishers.
pub data Reach (w : Setting) : System → Type 0 where
  empty : Reach w (record { store = λ k. none; publishers = λ i. Prog.pure tt })
  later : {s t : System} → Reach w s → Step w s t → Reach w t
