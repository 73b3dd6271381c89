-- ===== src/Workspace/Rebase.antt =====
-- rebase.go: syncDefault and the default path of Rebase, on the head of each clone and the rebase that is
-- in progress there, if any. What git answers is an argument.
pub mod Left
use nix_repo_base.Base.{
  String, Bool, true, false, not, ◌&&◌, ◌||◌, Option, none, some, List, [], ◌∷◌, str_eq,
  if◌then◌else◌,
}

-- `rebase` has the head that an abort returns to.
pub record Clone : Type 0 where
  pub head : String
  pub rebase : Option String

-- What becomes of `git pull --rebase --autostash`: it does not start; it ends at a new head; it fails
-- without a rebase; or it stops in the middle of one, at this head.
pub data Sync : Type 0 where
  not_started : Sync
  synced : String → Sync
  refused : Sync
  conflicted : String → Sync

pub record Answers : Type 0 where
  pub has_upstream : Bool
  pub opens : Bool
  pub fetches : Bool
  pub probes_before : Bool
  pub sync : Sync
  pub cancelled : Bool
  pub probes_after : Bool
  pub aborts : Bool

pub data RebaseError : Type 0 where
  no_client fetch_failed in_progress no_sync interrupted sync_failed still_rebasing rolled_back :
      RebaseError

abbrev pub is_rebasing : Clone → Bool
is_rebasing c = elim c.rebase [ none ↦ false | some h ↦ true ]

-- git does not begin a rebase in the middle of another one.
abbrev pub refuse : Option String → Sync → Sync
refuse none s = s
refuse (some h) not_started = not_started
refuse (some h) _ = refused

abbrev pub returned : Option String → Clone → Clone
returned none c = c
returned (some h) c = record { head = h; rebase = none }

unfoldable pub roll_back : Answers → Clone → Option RebaseError × Clone
roll_back a c =
    if a.aborts then (some rolled_back, returned c.rebase c) else (some still_rebasing, c)

unfoldable pub after_failure : Answers → Clone → Option RebaseError × Clone
unfolding roll_back
after_failure a c =
    if a.cancelled
    then (some interrupted, c)
    else if not (a.probes_after && is_rebasing c)
    then (some sync_failed, c)
    else roll_back a c

unfoldable pub after_sync : Answers → Clone → Sync → Option RebaseError × Clone
unfolding after_failure
after_sync a c not_started = (some no_sync, c)
after_sync a c (synced h) = (none, record c { head = h })
after_sync a c refused = after_failure a c
after_sync a c (conflicted h) = after_failure a (record { head = h; rebase = some c.head })

unfoldable pub sync_default : Answers → Clone → Option RebaseError × Clone
unfolding after_sync
sync_default a c =
    if a.probes_before && is_rebasing c
    then (some in_progress, c)
    else after_sync a c (refuse c.rebase a.sync)

unfoldable pub rebase_repo : Answers → Clone → Option RebaseError × Clone
unfolding sync_default
rebase_repo a c =
    if not a.has_upstream
    then (none, c)
    else if not a.opens
    then (some no_client, c)
    else if not a.fetches
    then (some fetch_failed, c)
    else sync_default a c

abbrev pub Clones : Type 0
Clones = String → Clone

abbrev pub set_clone : String → Clone → Clones → Clones
set_clone name c w = λ k. if str_eq name k then c else w k

-- The first error ends the walk.
unfoldable pub go_on_unless :
    Option RebaseError
    → (Clones → Option RebaseError × Clones)
    → Clones
    → Option RebaseError × Clones
go_on_unless none next w = next w
go_on_unless (some e) next w = (some e, w)

unfoldable pub rebase_all : (String → Answers) → List String → Clones → Option RebaseError × Clones
unfolding rebase_repo go_on_unless
rebase_all answers [] w = (none, w)
rebase_all answers (name ∷ names) w =
    go_on_unless (rebase_repo (answers name) (w name)).0 (rebase_all answers names)
      (set_clone name (rebase_repo (answers name) (w name)).1 w)
