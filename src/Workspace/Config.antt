-- ===== src/Workspace/Config.antt =====
-- config.go and lock.go: the configured repositories and the lock. URLs are byte strings, since the
-- code takes them apart; names, which it only compares and sorts, are texts. Hooks are carried along.
use nix_repo_base.Base.{ℕ, String, Bool, Option, List, Dict}
use nix_repo_base.Base.Bytes.{Bytes}

pub record Remote : Type 0 where
  pub name : String
  pub url : Bytes

pub record EventHook : Type 0 where
  pub when : List String
  pub commands : List String

pub record RepoConfig : Type 0 where
  pub url : Bytes
  pub branch : String
  pub remotes : List Remote
  pub slug : String
  pub mirror_urls : List Bytes
  pub foundation : Bool
  pub flake_path : String
  pub hooks : List EventHook

pub record WorkspaceSection : Type 0 where
  pub name : String
  pub description : String
  pub id : String
  pub terminal : String
  pub build_command : String
  pub apply_command : String
  pub activate_command : String
  pub workforests_dir : String
  pub warn_builds : Option ℕ

pub record WorkspaceConfig : Type 0 where
  pub workspace : WorkspaceSection
  pub repos : Dict RepoConfig
  pub hooks : List EventHook

pub record LockRepoEntry : Type 0 where
  pub flake_path : String
  pub remote_url : Bytes

pub record LockEdge : Type 0 where
  pub consumer : String
  pub alias : String
  pub target : String

pub record Lock : Type 0 where
  pub terminal : String
  pub order : List String
  pub repos : Dict LockRepoEntry
  pub edges : List LockEdge

pub record InputSpec : Type 0 where
  pub url : Bytes
  pub flake : Bool
