-- ===== src/Release/Install.antt =====
-- release/install.go: the atomic install of a binary at a fixed path, its markers and its revert;
-- and the start-up check of selfupdate/selfupdate.go that acts on them. BLAKE3 is a parameter.
pub mod Atomic
use go_binsync.Prelude.{
  ℕ, suc, ◌+◌, ◌≡◌, Bool, true, false, not, List, [], ◌∷◌, Option, none, some, ok, err, panic,
  stuck, Result, take, ◌==◌, if◌then◌else◌, length,
}
use go_binsync.Release.Hash.{Hash, HashError, bytes_eq, is_zero, to_string, parse_hash, zero_hash}
use go_binsync.Release.Disk.{
  File, Disk, IoError, call_failed, not_exist, symlink_path, writable_path, wrong_hash,
  nothing_to_revert, Reply, done, failed, Io, pure, raise, ◌>>=◌, ◌>>◌, catch, ignore,
  allow_missing, sys, unchanged, quiet,
}

-- os.CreateTemp, os.Remove(tmp), f.Write of the temp file.
create_temp : Io (Unit {0})
create_temp = sys (λ d. (done tt, record d { tmp = some [] })) unchanged

remove_temp : Io (Unit {0})
remove_temp = sys (λ d. (done tt, record d { tmp = none })) unchanged

write_temp : List ℕ → Io (Unit {0})
write_temp content =
    sys (λ d. (done tt, record d { tmp = some content }))
      (λ n d. record d { tmp = some (take n content) })

-- The steps of writeSync on the pending marker: open with O_TRUNC, and the write.
open_pending : Io (Unit {0})
open_pending = sys (λ d. (done tt, record d { pending = some [] })) unchanged

write_pending : List ℕ → Io (Unit {0})
write_pending text =
    sys (λ d. (done tt, record d { pending = some text }))
      (λ n d. record d { pending = some (take n text) })

abbrev pub removed_pending : Disk → Option (List ℕ) → Reply (Unit {0}) × Disk
removed_pending d none = (failed not_exist, d)
removed_pending d (some t) = (done tt, record d { pending = none })

unfoldable pub remove_pending : Io (Unit {0})
remove_pending = sys (λ d. removed_pending d d.pending) unchanged

abbrev removed_old : Disk → Option File → Reply (Unit {0}) × Disk
removed_old d none = (failed not_exist, d)
removed_old d (some f) = (done tt, record d { old = none })

remove_old : Io (Unit {0})
remove_old = sys (λ d. removed_old d d.old) unchanged

abbrev linked : Disk → Option File → Reply (Unit {0}) × Disk
linked d none = (failed not_exist, d)
linked d (some f) = (done tt, record d { old = some f })

-- os.Link(Path, OldPath)
link_old : Io (Unit {0})
link_old = sys (λ d. linked d d.path) unchanged

abbrev renamed : Disk → Option (List ℕ) → Reply (Unit {0}) × Disk
renamed d none = (failed not_exist, d)
renamed d (some content) = (
  done tt,
  record d {
    path = some (record {
      inode = d.next_inode;
      content = content;
      symlink = false;
      world_writable = false;
    });
    tmp = none;
    next_inode = d.next_inode + 1;
  },
)

-- os.Rename(tmp, Path)
rename_temp : Io (Unit {0})
rename_temp = sys (λ d. renamed d d.tmp) unchanged

-- rename(2) of two names of one inode does nothing and succeeds.
abbrev pub reverted : Disk → Option File → Option File → Reply (Unit {0}) × Disk
reverted d none p = (failed not_exist, d)
reverted d (some f) none = (done tt, record d { path = some f; old = none })
reverted d (some f) (some g) =
    (done tt, if f.inode == g.inode then d else record d { path = some f; old = none })

-- os.Rename(OldPath, Path)
unfoldable pub rename_old : Io (Unit {0})
rename_old = sys (λ d. reverted d d.old d.path) unchanged

-- os.Lstat(Path); a missing Path passes.
abbrev inspected : Option File → Reply (Unit {0})
inspected none = done tt
inspected (some f) =
    if f.symlink
    then failed symlink_path
    else if f.world_writable
    then failed writable_path
    else done tt

inspect : Io (Unit {0})
inspect = sys (λ d. (inspected d.path, d)) unchanged

-- Lstat and Access.
check : Io (Unit {0})
unfolding inspect quiet
check = do inspect; quiet

-- Write, Chmod and Sync, then Close, the error of which counts only where nothing else failed.
write_exec : List ℕ → Io (Unit {0})
unfolding write_temp quiet
write_exec content = do
  catch (do write_temp content; quiet; quiet) (λ e. do ignore quiet; raise e)
  quiet

compare_hash : (List ℕ → Hash) → List ℕ → Hash → Io (Unit {0})
compare_hash hash_of content want =
    if bytes_eq (hash_of content) want then pure tt else raise wrong_hash

stage : (List ℕ → Hash) → List ℕ → Hash → Io (Unit {0})
unfolding check create_temp write_exec compare_hash remove_temp
stage hash_of content want = do
  check
  create_temp
  catch (do write_exec content; compare_hash hash_of content want)
      (λ e. do ignore remove_temp; raise e)

link_previous : Io (Unit {0})
unfolding remove_old link_old
link_previous = do allow_missing remove_old; allow_missing link_old

-- writeSync of the marker.
mark_pending : Hash → Io (Unit {0})
unfolding open_pending write_pending quiet
mark_pending want = do
  open_pending
  catch (do write_pending (to_string want); quiet) (λ e. do ignore quiet; raise e)
  quiet

-- syncDir: Open and Sync.
unfoldable pub sync_dir : Io (Unit {0})
unfolding quiet
sync_dir = do quiet; quiet

pub install : (List ℕ → Hash) → List ℕ → Hash → Io (Unit {0})
unfolding stage link_previous mark_pending rename_temp sync_dir
install hash_of content want = do
  stage hash_of content want
  catch link_previous (λ e. do ignore remove_temp; raise e)
  catch (mark_pending want) (λ e. do ignore remove_temp; raise e)
  catch rename_temp (λ e. do ignore remove_temp; ignore remove_pending; raise e)
  sync_dir
