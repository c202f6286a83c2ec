-- ===== src/Release/Disk.antt =====
-- The names that release/install.go touches, and the system calls that it makes on them. Every call
-- may fail: a run has a list of what becomes of its calls, `none` for one that does its work and
-- `some n` for one that fails, having written `n` bytes where it writes. What a crash at any instant
-- leaves is among the disks that the run has passed through, `seen`.
pub mod Triples
use go_binsync.Prelude.{
  ℕ, suc, ◌+◌, Bool, true, false, List, [], ◌∷◌, Option, none, some, take, ◌==◌, if◌then◌else◌,
}

-- Two names of one inode are one file.
pub record File : Type 0 where
  pub inode : ℕ
  pub content : List ℕ
  pub symlink : Bool
  pub world_writable : Bool

-- Path, Path.old, Path.pending, Path.go-binsync/failed and the temp file.
pub record Disk : Type 0 where
  pub path : Option File
  pub old : Option File
  pub pending : Option (List ℕ)
  pub failed : Option (List ℕ)
  pub tmp : Option (List ℕ)
  pub next_inode : ℕ

pub data IoError : Type 0 where
  call_failed not_exist symlink_path writable_path wrong_hash nothing_to_revert : IoError

pub data Reply (A : Type 0) : Type 0 where
  done : A → Reply A
  failed : IoError → Reply A

pub record Run : Type 0 where
  pub disk : Disk
  pub seen : List Disk
  pub faults : List (Option ℕ)

abbrev pub Io : Type 0 → Type 0
Io A = Run → Reply A × Run

abbrev pub pure : {A : Type 0} → A → Io A
pure a r = (done a, r)

abbrev pub raise : {A : Type 0} → IoError → Io A
raise e r = (failed e, r)

abbrev pub continue : {A : Type 0} {B : Type 0} → Reply A → (A → Io B) → Io B
continue (done a) k r = k a r
continue (failed e) k r = (failed e, r)

infixl 5 ◌>>=◌ ◌>>◌
unfoldable pub ◌>>=◌ : {A : Type 0} {B : Type 0} → Io A → (A → Io B) → Io B
◌>>=◌ m k r = let (a, r') = m r in continue a k r'

abbrev pub ◌>>◌ : {B : Type 0} → Io (Unit {0}) → Io B → Io B
m >> k = m >>= λ _. k

abbrev pub handle : {A : Type 0} → Reply A → (IoError → Io A) → Io A
handle (done a) h r = (done a, r)
handle (failed e) h r = h e r

-- `if err != nil { ... }` behind a call.
unfoldable pub catch : {A : Type 0} → Io A → (IoError → Io A) → Io A
unfolding ◌>>=◌
catch m h r = let (a, r') = m r in handle a h r'

-- A call whose error is not looked at.
unfoldable pub ignore : Io (Unit {0}) → Io (Unit {0})
unfolding catch
ignore m = catch m (λ _. pure tt)

-- `err != nil && !errors.Is(err, fs.ErrNotExist)`
abbrev pub or_missing : IoError → Io (Unit {0})
or_missing not_exist = pure tt
or_missing e = raise e

unfoldable pub allow_missing : Io (Unit {0}) → Io (Unit {0})
unfolding catch
allow_missing m = catch m or_missing

abbrev outcome :
    {A : Type 0}
    → List (Option ℕ)
    → (Disk → Reply A × Disk)
    → (ℕ → Disk → Disk)
    → Disk
    → Reply A × Disk
outcome [] f g d = f d
outcome (none ∷ rest) f g d = f d
outcome (some n ∷ rest) f g d = (failed call_failed, g n d)

abbrev rest_of : List (Option ℕ) → List (Option ℕ)
rest_of [] = []
rest_of (x ∷ rest) = rest

-- One call: what it does, and what it leaves where it fails.
unfoldable pub sys : {A : Type 0} → (Disk → Reply A × Disk) → (ℕ → Disk → Disk) → Io A
sys f g r =
    let (a, d) = outcome r.faults f g r.disk in
    (a, record { disk = d; seen = d ∷ r.seen; faults = rest_of r.faults })

abbrev pub unchanged : ℕ → Disk → Disk
unchanged n d = d

-- A call that changes none of the names: Chmod, Sync, Close, Access, Open of the directory, MkdirAll.
unfoldable pub quiet : Io (Unit {0})
unfolding sys
quiet = sys (λ d. (done tt, d)) unchanged
