-- ===== src/Workspace/Tests/Publish.antt =====
-- A lock published into a directory with an old lock, with and without a failure.
use nix_repo_base.Base.{
  String, ◌≡◌, refl, true, false, none, some, All, str_eq, if◌then◌else◌, sort_by,
}
use nix_repo_base.Workspace.Lock.{empty_lock, written_lock}
use nix_repo_base.Workspace.Publish.{complete, Directory, Calls, write_lock_atomic}
use nix_repo_base.Workspace.Publish.Atomic.{Whole, Settled, write_lock_atomic_sound}
use nix_repo_base.Workspace.Tests.Derived.{derived}

abbrev lock_file : String
lock_file = "pn-workspace.lock.json"

abbrev temp_file : String
temp_file = ".pn-lock-1.tmp"

abbrev before : Directory
before k = if str_eq lock_file k then some (complete empty_lock) else none

abbrev all_succeed : Calls
all_succeed = record {
  create_temp = true;
  close_temp = true;
  marshal = true;
  write_file = true;
  rename_temp = true;
  remove_temp = true;
}

published :
    (write_lock_atomic lock_file temp_file derived all_succeed before).final lock_file
    ≡ some (complete derived)
unfolding write_lock_atomic written_lock sort_by
published = refl

not_renamed :
    (write_lock_atomic lock_file temp_file derived
        (record all_succeed { rename_temp = false })
        before).final
      lock_file
    ≡ some (complete empty_lock)
unfolding write_lock_atomic
not_renamed = refl

write_lock_atomic_sound_example :
    All
      (Whole lock_file temp_file derived before)
      (write_lock_atomic lock_file temp_file derived all_succeed before).states
    × Settled lock_file temp_file derived before true
        (write_lock_atomic lock_file temp_file derived all_succeed before)
write_lock_atomic_sound_example =
    write_lock_atomic_sound lock_file temp_file derived before refl all_succeed
