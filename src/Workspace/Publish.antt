-- ===== src/Workspace/Publish.antt =====
-- writeLockAtomic of derive_lock.go, which replaces a lock file by a rename: what the directory holds
-- after each call to the system, at any of which the process may be killed.
pub mod Atomic
use nix_repo_base.Base.{
  String, Bool, true, false, Option, none, some, List, [], ◌∷◌, ◌++◌, str_eq, if◌then◌else◌,
}
use nix_repo_base.Workspace.Config.{Lock}
use nix_repo_base.Workspace.Lock.{written_lock}

-- An incomplete file holds some of what is written to it, or nothing yet.
pub data Content : Type 0 where
  complete : Lock → Content
  incomplete : Content

abbrev pub Directory : Type 0
Directory = String → Option Content

abbrev pub put : String → Content → Directory → Directory
put name c d = λ k. if str_eq name k then some c else d k

abbrev pub remove : String → Directory → Directory
remove name d = λ k. if str_eq name k then none else d k

-- Which calls succeed.
pub record Calls : Type 0 where
  pub create_temp : Bool
  pub close_temp : Bool
  pub marshal : Bool
  pub write_file : Bool
  pub rename_temp : Bool
  pub remove_temp : Bool

pub data PublishError : Type 0 where
  temp_create temp_close marshal_lock write_failed rename_failed : PublishError

-- What the directory held after each call, the last one's state, and the error.
pub record Outcomes : Type 0 where
  pub states : List Directory
  pub final : Directory
  pub error : Option PublishError

-- `_ = os.Remove(tmpPath)` after an error.
abbrev pub failed : String → Calls → List Directory → Directory → PublishError → Outcomes
failed tmp calls states d e =
    let d' = if calls.remove_temp then remove tmp d else d in
    record { states = states ++ d' ∷ []; final = d'; error = some e }

-- `tmp` is the name that os.CreateTemp chooses. A file that is opened for writing is emptied first, so
-- it is incomplete from the creation until the write has ended.
unfoldable pub write_lock_atomic : String → String → Lock → Calls → Directory → Outcomes
write_lock_atomic dest tmp lock calls d =
    let created = put tmp incomplete d in
    let written = put tmp (complete (written_lock lock)) d in
    let renamed = put dest (complete (written_lock lock)) (remove tmp d) in
    if calls.create_temp
    then if calls.close_temp
      then if calls.marshal
        then if calls.write_file
          then if calls.rename_temp
            then record {
              states = d ∷ created ∷ written ∷ renamed ∷ [];
              final = renamed;
              error = none;
            }
            else failed tmp calls (d ∷ created ∷ written ∷ []) written rename_failed
          else failed tmp calls (d ∷ created ∷ []) created write_failed
        else failed tmp calls (d ∷ created ∷ []) created marshal_lock
      else failed tmp calls (d ∷ created ∷ []) created temp_close
    else record { states = d ∷ []; final = d; error = some temp_create }
