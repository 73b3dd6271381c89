-- ===== src/Workspace/Tests/Rebase.antt =====
-- A walk over three clones: one is rebased, the next has a conflict and is rolled back, and the last is
-- not visited.
use nix_repo_base.Base.{
  String, ◌≡◌, refl, true, false, none, some, List, [], ◌∷◌, mem, str_eq, if◌then◌else◌, inl,
}
use nix_repo_base.Workspace.Rebase.{
  Clone, synced, conflicted, Answers, rolled_back, Clones, sync_default, rebase_all,
}
use nix_repo_base.Workspace.Rebase.Left.{IsWalked, rebase_all-IsWalked}

abbrev answers_of : String → Answers
answers_of name = record {
  has_upstream = true;
  opens = true;
  fetches = true;
  probes_before = true;
  sync = if str_eq name "core" then synced "new" else conflicted "half";
  cancelled = false;
  probes_after = true;
  aborts = true;
}

abbrev at_old : Clones
at_old name = record { head = "old"; rebase = none }

abbrev three : List String
three = "core" ∷ "lib" ∷ "app" ∷ []

rolled_back_lib : (rebase_all answers_of three at_old).0 ≡ some rolled_back
unfolding rebase_all
rolled_back_lib = refl

-- Where git cannot answer before the sync, a rebase of the operator is aborted as if it were this run's.
abbrev operators : Clone
operators = record { head = "half"; rebase = some "old" }

operators_lost :
    (sync_default (record (answers_of "core") { probes_before = false }) operators).1
    ≡ record { head = "old"; rebase = none }
unfolding sync_default
operators_lost = refl

rebase_all-IsWalked_example : IsWalked answers_of at_old (rebase_all answers_of three at_old) "lib"
unfolding mem
rebase_all-IsWalked_example =
    rebase_all-IsWalked answers_of three at_old (refl, (refl, (refl, tt)))
      (inl refl, (inl refl, (inl refl, tt))) "lib"
