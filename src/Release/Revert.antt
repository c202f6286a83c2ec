-- ===== src/Release/Revert.antt =====
-- release/install.go: Revert, the pending marker and the failed marker; and selfCheck of
-- selfupdate/selfupdate.go, the start-up check that acts on them.
pub mod Resumed
pub mod Recorded
use go_binsync.Prelude.{
  ℕ, zero, suc, ◌&&◌, ◌||◌, leb, Bool, true, false, not, List, [], ◌∷◌, ◌++◌, Option, none, some,
  Result, ok, err, take, drop, length, ◌==◌, if◌then◌else◌,
}
use mathlib.Core.List.{reverse}
use go_binsync.Release.Hash.{Hash, HashError, is_zero, to_string, parse_hash, zero_hash}
use go_binsync.Release.Disk.{
  File, Disk, IoError, not_exist, nothing_to_revert, Reply, done, failed, Io, pure, raise, ◌>>=◌,
  ◌>>◌, catch, ignore, allow_missing, sys, unchanged, quiet,
}
use go_binsync.Release.Install.{rename_old, remove_pending, sync_dir}

abbrev pub present {ℓ} : {A : Type ℓ} → Option A → Reply (Unit {0})
present none = failed not_exist
present (some a) = done tt

abbrev pub contents : Option (List ℕ) → Reply (List ℕ)
contents none = failed not_exist
contents (some t) = done t

-- os.Stat of Path.pending and of Path.old.
unfoldable pub stat_pending : Io (Unit {0})
unfolding sys
stat_pending = sys (λ d. (present d.pending, d)) unchanged

unfoldable pub stat_old : Io (Unit {0})
unfolding sys
stat_old = sys (λ d. (present d.old, d)) unchanged

-- `_, serr := os.Stat(PendingPath); serr != nil`
unfoldable pub missing_old : IoError → Io (Unit {0})
unfolding stat_pending catch
missing_old not_exist = catch stat_pending (λ e. raise nothing_to_revert)
missing_old e = raise e

unfoldable pub clear_pending : Io (Unit {0})
unfolding remove_pending sync_dir allow_missing ◌>>=◌
clear_pending = do allow_missing remove_pending; sync_dir

unfoldable pub revert : Io (Unit {0})
unfolding rename_old missing_old remove_pending sync_dir allow_missing catch ◌>>=◌
revert = do catch rename_old missing_old; allow_missing remove_pending; sync_dir

-- unicode.IsSpace, of the bytes of one character in UTF-8.
is_space : List ℕ → Bool
is_space (a ∷ []) = a == 32 || (leb 9 a && leb a 13)
is_space (a ∷ b ∷ []) = a == 0xC2 && (b == 0x85 || b == 0xA0)
is_space (a ∷ b ∷ c ∷ []) =
    (a == 0xE1 && b == 0x9A && c == 0x80)
    || (a == 0xE2
        && b == 0x80
        && ((leb 0x80 c && leb c 0x8A) || c == 0xA8 || c == 0xA9 || c == 0xAF))
    || (a == 0xE2 && b == 0x81 && c == 0x9F)
    || (a == 0xE3 && b == 0x80 && c == 0x80)
is_space _ = false

-- The bytes of the space at the end that is in front; `way` puts them in order.
space_width : (List ℕ → List ℕ) → List ℕ → ℕ
unfolding is_space
space_width way s =
    if is_space (way (take 1 s))
    then 1
    else if is_space (way (take 2 s))
    then 2
    else if is_space (way (take 3 s))
    then 3
    else 0

trim_front : ℕ → (List ℕ → List ℕ) → List ℕ → List ℕ
unfolding space_width
trim_front zero way s = s
trim_front (suc n) way s =
    let rest = trim_front n way (drop (space_width way s) s) in
    if space_width way s == 0 then s else rest

-- strings.TrimSpace
trim_space : List ℕ → List ℕ
unfolding trim_front
trim_space s =
    let t = trim_front (length s) (λ x. x) s in reverse (trim_front (length t) reverse (reverse t))

pub data StartError : Type 0 where
  io : IoError → StartError
  no_hash : HashError → StartError

-- What Pending returns.
pub record Pending : Type 0 where
  pub hash : Hash
  pub found : Bool
  pub errors : List StartError

-- ParseHash has no outcome but the first two.
abbrev pub parsed : Result HashError Hash → Pending
parsed (ok h) = record { hash = h; found = true; errors = [] }
parsed (err e) = record { hash = zero_hash; found = true; errors = no_hash e ∷ [] }
parsed _ = record { hash = zero_hash; found = true; errors = [] }

abbrev pub unread : IoError → Io Pending
unread not_exist = pure (record { hash = zero_hash; found = false; errors = [] })
unread e = pure (record { hash = zero_hash; found = false; errors = io e ∷ [] })

unfoldable pub read_pending : Io (List ℕ)
unfolding sys
read_pending = sys (λ d. (contents d.pending, d)) unchanged

unfoldable pub read_failed : Io (List ℕ)
unfolding sys
read_failed = sys (λ d. (contents d.failed, d)) unchanged

unfoldable pub read_hash : List ℕ → Result HashError Hash
unfolding trim_space parse_hash
read_hash t = parse_hash (trim_space t)

unfoldable pub pending : Io Pending
unfolding read_pending catch ◌>>=◌ read_hash
pending = catch (do t ← read_pending; pure (parsed (read_hash t))) unread

-- The steps of writeSync on the failed marker.
unfoldable pub open_failed : Io (Unit {0})
unfolding sys
open_failed = sys (λ d. (done tt, record d { failed = some [] })) unchanged

unfoldable pub write_failed : List ℕ → Io (Unit {0})
unfolding sys
write_failed text =
    sys (λ d. (done tt, record d { failed = some text }))
      (λ n d. record d { failed = some (take n text) })

unfoldable pub mark_failed : Hash → Io (Unit {0})
unfolding quiet open_failed write_failed catch ignore ◌>>=◌
mark_failed h = do
  quiet
  open_failed
  catch (do write_failed (to_string h); quiet) (λ e. do ignore quiet; raise e)
  quiet

abbrev removed_failed : Disk → Option (List ℕ) → Reply (Unit {0}) × Disk
removed_failed d none = (failed not_exist, d)
removed_failed d (some t) = (done tt, record d { failed = none })

unfoldable pub remove_failed : Io (Unit {0})
unfolding sys
remove_failed = sys (λ d. removed_failed d d.failed) unchanged

unfoldable pub clear_failed : Io (Unit {0})
unfolding remove_failed allow_missing
clear_failed = allow_missing remove_failed

abbrev pub known : Result HashError Hash → Option Hash
known (ok h) = if is_zero h then none else some h
known _ = none

-- Failed: a marker that does not read as a hash is none.
unfoldable pub failed_release : Io (Option Hash)
unfolding read_failed catch ◌>>=◌ read_hash
failed_release = catch (do t ← read_failed; pure (known (read_hash t))) (λ e. pure none)

-- How the start-up check ends: the process goes on, with the errors that are logged, or execve has
-- put the binary at Path in its place.
pub data Start : Type 0 where
  serving : List StartError → Start
  executed : Start

abbrev pub errors_of : Io (Unit {0}) → Io (List StartError)
errors_of m = catch (m >>= λ _. pure []) (λ e. pure (io e ∷ []))

abbrev pub executing : List StartError → List StartError → Start
executing before [] = executed
executing before (e ∷ es) = serving (before ++ e ∷ es)

unfoldable pub restart : List StartError → List StartError → Io Start
unfolding quiet catch ◌>>=◌
restart before [] = do es ← errors_of quiet; pure (executing before es)
restart before (e ∷ es) = pure (serving (before ++ e ∷ es))

-- Behind the look at Path.old.
unfoldable pub put_back : Pending → Bool → Io Start
unfolding clear_pending mark_failed revert restart catch ignore ◌>>=◌
put_back p false = do es ← errors_of clear_pending; pure (serving (p.errors ++ es))
put_back p true = do ignore (mark_failed p.hash); es ← errors_of revert; restart p.errors es

unfoldable pub act_on : Pending → Io Start
unfolding stat_old put_back catch ◌>>=◌
act_on p =
    if p.found
    then (do there ← catch (stat_old >>= λ _. pure true) (λ e. pure false); put_back p there)
    else pure (serving p.errors)

-- `inherited`: a handoff launched the process.
unfoldable pub self_check : Bool → Io Start
unfolding pending act_on ◌>>=◌
self_check true = pure (serving [])
self_check false = do p ← pending; act_on p
