-- ===== src/Logs/Nixlog.antt =====
-- nixlog/nixlog.go: what the processor of nix's activity stream keeps and emits. A text of an event is a
-- list of characters, an identifier a `uint64`, a stamp a number of nanoseconds.
pub mod Text
pub mod Fast
pub mod Processor
pub mod Messages
pub mod Lines
pub mod Totals
mod Ids
pub mod Accounts
pub mod Reported
use nix_repo_base.Base.{
  ℕ, Bool, true, false, Option, none, some, List, [], ◌∷◌, ◌==◌, if◌then◌else◌,
}

abbrev pub Text : Type 0
Text = List ℕ

pub data Kind : Type 0 where
  build substitute wait : Kind

-- The Err constants; the first four stand on activities.
pub data ErrorType : Type 0 where
  build_failed dependency_failed aborted hash_mismatch eval_error signal other_error : ErrorType

pub record Activity : Type 0 where
  pub kind : Kind
  pub name : Text
  pub path : Text
  pub server : Text
  pub start : ℕ
  pub end_at : ℕ
  pub failed : Option ErrorType
  pub reason : Text
  pub no_span : Bool
  pub instant : Bool
  pub bytes : Option ℕ
  pub placeholder : Bool

-- The done, expected and failed counts; nix's counts are not negative, and sums stay below 2 ^ 63.
pub record Progress : Type 0 where
  pub done : ℕ
  pub expected : ℕ
  pub failed : ℕ

pub record Agg : Type 0 where
  pub typ : ℕ
  pub nested : Bool
  pub seen : Bool
  pub last : Progress

pub record Failure : Type 0 where
  pub reason : Text
  pub err_type : ErrorType
  pub placeholder : Bool

-- A started activity and its place in the order of starts; `held` ones have this form too.
pub record Open : Type 0 where
  pub act : Activity
  pub order : ℕ

pub record Summary : Type 0 where
  pub plan_build : ℕ
  pub plan_fetch : ℕ
  pub builds : Option Progress
  pub fetch : Option Progress
  pub first_active : Option ℕ
  pub lines : ℕ
  pub dropped : ℕ
  pub folded : ℕ
  pub malformed : ℕ
  pub first_error : Text
  pub failed_drvs : List Text
  pub eval_cache_busy : ℕ
  pub db_busy : ℕ
  pub waits : ℕ
  pub kinds : List ErrorType

-- A value of an event's `fields`; a number that is no int64 is `other_json`.
pub data Json : Type 0 where
  text : Text → Json
  number : ℕ → Json
  null_json other_json : Json

pub data Action : Type 0 where
  start_action stop_action msg_action result_action other_action : Action

pub record Event : Type 0 where
  pub action : Action
  pub id : ℕ
  pub typ : ℕ
  pub level : ℕ
  pub parent : ℕ
  pub text : Text
  pub fields : List Json
  pub msg : Text
  pub raw_msg : Text

abbrev pub type_build : ℕ
type_build = 105

abbrev pub type_substitute : ℕ
type_substitute = 108

abbrev pub type_build_waiter : ℕ
type_build_waiter = 111

abbrev pub type_copy_path : ℕ
type_copy_path = 100

abbrev pub type_copy_paths : ℕ
type_copy_paths = 103

abbrev pub type_builds : ℕ
type_builds = 104

abbrev pub max_failed_drvs : ℕ
max_failed_drvs = 5

abbrev pub max_error_len : ℕ
max_error_len = 200

-- Maps keyed by identifiers.
module _ {ℓ} {V : Type ℓ} where
  unfoldable pub at_id : ℕ → List (ℕ × V) → Option V
  at_id k [] = none
  at_id k ((j, v) ∷ m) = if j == k then some v else at_id k m

  unfoldable pub put_id : ℕ → V → List (ℕ × V) → List (ℕ × V)
  put_id k v [] = (k, v) ∷ []
  put_id k v ((j, w) ∷ m) = if j == k then (k, v) ∷ m else (j, w) ∷ put_id k v m

  -- A map has one entry for a key.
  unfoldable pub drop_id : ℕ → List (ℕ × V) → List (ℕ × V)
  drop_id k [] = []
  drop_id k ((j, v) ∷ m) = if j == k then m else (j, v) ∷ drop_id k m
