-- ===== src/Workspace/Push/Converges.antt =====
-- After a whole push, the locks of the repositories agree with what has been published.
use mathlib.Core.Path.{subst}
use nix_repo_base.Base.{
  String, ◌≡◌, refl, ap, sym, ◌∙◌, true, false, Option, none, some, List, [], ◌∷◌, ◌++◌, All,
  All-map, mem, mem-sort_strings, str_eq, arith, eq_iff, eq_refl,
}
use nix_repo_base.Base.Bytes.{Bytes}
use nix_repo_base.Workspace.Config.{Lock, LockEdge}
use nix_repo_base.Workspace.Propagate.{
  FlakeLock, alias_rev, Tree, NixRun, relocked_to, failed_with, relocked_to-injective,
  workspace_aliases_from_lock,
}
use nix_repo_base.Workspace.Push.{
  PushOptions, Repo, Visit, PushError, relock_siblings_before_push, World, store, visit_repo,
  Pushed, walked, push_all,
}
use nix_repo_base.Workspace.Push.Relocks.{
  All-zip, All-mem, own_aliases, aliases_mem, after_relock-tree, relock_siblings-HasRevs,
  relock_siblings_failed,
}

-- In this list each name comes once, and behind the targets of its edges.
abbrev pub IsOrdered : List LockEdge → List String → Type 0
IsOrdered edges [] = Unit
IsOrdered edges (n ∷ names) =
    (mem n names ≡ false)
    × All (λ e. str_eq e.consumer n ≡ true → mem e.target (n ∷ names) ≡ false) edges
    × IsOrdered edges names

module _ (parse : Bytes → Option FlakeLock)
    (nix : (String → String) → String → List String → Bytes → NixRun) (lock : Lock)
    (resolves : (tips : String → String) (name : String) (old new : Bytes)
      → nix tips name (workspace_aliases_from_lock lock name) old ≡ relocked_to new
      → (after : FlakeLock) × (parse new ≡ some after)
        × All
            (λ e. str_eq e.consumer name ≡ true → alias_rev after e.alias ≡ tips e.target)
            lock.edges)
    (options : PushOptions) (visits : String → Visit) where
  -- A lock with the revs of these tips, for the edges of a consumer.
  abbrev pub IsLocked : String → (String → String) → Bytes → LockEdge → Type 0
  IsLocked name tips head e =
      str_eq e.consumer name ≡ true
      → (f : FlakeLock) × (parse head ≡ some f) × (alias_rev f e.alias ≡ tips e.target)

  -- The commit of a repository pins the tips of the targets of its edges.
  abbrev pub IsConverged : World → String → Type 0
  IsConverged w name = All (IsLocked name (λ k. (w k).tip) (w name).tree.head) lock.edges

  all-IsLocked :
      (name : String) (tips : String → String) (aliases : List String) (o : NixRun) (t : Tree)
      → All (λ e. str_eq e.consumer name ≡ true → mem e.alias aliases ≡ true) lock.edges
      → ((new : Bytes)
          → o ≡ relocked_to new
          → (after : FlakeLock) × (parse new ≡ some after)
            × All
                (λ e. str_eq e.consumer name ≡ true → alias_rev after e.alias ≡ tips e.target)
                lock.edges)
      → (visits name).is_repo ≡ true
      → t.has_lock ≡ true
      → (relock_siblings_before_push parse (visits name) aliases o t).0 ≡ none
      → All
          (IsLocked name tips (relock_siblings_before_push parse (visits name) aliases o t).1.head)
          lock.edges
  unfolding mem
  all-IsLocked name tips [] o t known f repo locked h =
      All-map (λ e. str_eq e.consumer name ≡ true → mem e.alias [] ≡ true) _ lock.edges
        (λ e k same. ground (arith, k same)) known
  all-IsLocked name tips (a ∷ more) (failed_with left) t known f repo locked h =
      absurd (relock_siblings_failed parse (visits name) a more left t repo locked h)
  all-IsLocked name tips (a ∷ more) (relocked_to new) t known f repo locked h =
      let (after, read, revs) = f new refl in
      let (g, own, same) =
        relock_siblings-HasRevs parse (visits name) a more (relocked_to new) t after repo locked
          (λ n e. ap parse (sym (relocked_to-injective new n e)) ∙ read) h in
      All-zip (λ e. str_eq e.consumer name ≡ true → mem e.alias (a ∷ more) ≡ true)
        (λ e. str_eq e.consumer name ≡ true → alias_rev after e.alias ≡ tips e.target)
        (IsLocked name tips _) lock.edges
        (λ e k l mine. (
          g,
          own,
          All-mem (λ x. alias_rev g x ≡ alias_rev after x) e.alias (a ∷ more) same (k mine)
              ∙ l mine,
        ))
        known revs

  known_aliases :
      (name : String)
      → All
          (λ e.
            str_eq e.consumer name ≡ true
            → mem e.alias (workspace_aliases_from_lock lock name) ≡ true)
          lock.edges
  unfolding workspace_aliases_from_lock
  known_aliases name =
      All-map
        (λ e. str_eq e.consumer name ≡ true → mem e.alias (own_aliases name lock.edges) ≡ true) _
        lock.edges (λ e h same. mem-sort_strings e.alias (own_aliases name lock.edges) ∙ h same)
        (aliases_mem name lock.edges)

  visit_repo-IsLocked :
      (name : String) (w : World)
      → (visits name).is_repo ≡ true
      → (w name).tree.has_lock ≡ true
      → (visit_repo parse nix options (some lock) visits name w).0 ≡ none
      → All
          (IsLocked name
            (λ k. (w k).tip)
            (visit_repo parse nix options (some lock) visits name w).1.tree.head)
          lock.edges
  unfolding visit_repo
  visit_repo-IsLocked name w repo locked h =
      let tips : String → String = λ k. (w k).tip in
      let aliases = workspace_aliases_from_lock lock name in
      let o = nix tips name aliases (w name).tree.work in
      let p = relock_siblings_before_push parse (visits name) aliases o (w name).tree in
      let (ok, same) = after_relock-tree options (visits name) (w name) p h in
      subst (λ t. All (IsLocked name tips t.head) lock.edges) (sym same)
        (all-IsLocked name tips aliases o (w name).tree (known_aliases name)
          (λ new e. resolves tips name (w name).tree.work new e) repo locked ok)

  -- The rest of the walk leaves alone what it does not name.
  stored_apart :
      (n k : String) (r : Repo) (w : World) → str_eq n k ≡ false → Path Repo (store n r w k) (w k)
  stored_apart n k r w h = rw h refl

  stored_here : (n : String) (r : Repo) (w : World) → Path Repo (store n r w n) r
  stored_here n r w = rw (eq_refl n) refl

  IsWalked : List String → World → Pushed parse nix options (some lock) visits → Type 0
  IsWalked names w s =
      s.error ≡ none
      → ((k : String) → mem k names ≡ false → Path Repo (s.world k) (w k))
        × All (IsConverged s.world) names

  walked-IsWalked :
      (name : String) (names completed : List String) (w : World) (e : Option PushError) (r : Repo)
      → IsOrdered lock.edges (name ∷ names)
      → (e ≡ none → All (IsLocked name (λ k. (w k).tip) r.tree.head) lock.edges)
      → IsWalked names (store name r w) (
          push_all parse nix options
            (some lock)
            visits
            names
            (completed ++ name ∷ [])
            (store name r w))
      → IsWalked (name ∷ names) w (
          walked parse nix options
            (some lock)
            visits
            e
            (push_all parse nix options (some lock) visits names)
            name
            completed
            (store name r w))
  unfolding IsWalked walked mem
  walked-IsWalked name names completed w (some e) r o l ih h = cc
  walked-IsWalked name names completed w none r o l ih h =
      let (others, rest) = ih h in
      (
        λ k apart.
            others k (ground (arith, apart)) ∙ stored_apart name k r w (ground (arith, apart)),
        (
          All-zip (IsLocked name (λ k. (w k).tip) r.tree.head)
              (λ e. str_eq e.consumer name ≡ true → mem e.target (name ∷ names) ≡ false) _
              lock.edges
              (λ e pinned behind mine.
                let (f, read, rev) = pinned mine in
                (
                  f,
                  ap (λ x. parse x.tree.head) (others name o.0 ∙ stored_here name r w) ∙ read,
                  rev
                      ∙ ap (λ x. x.tip)
                          (sym (
                            others e.target (ground (arith, behind mine))
                            ∙ stored_apart name e.target r w (ground (arith, behind mine)))),
                ))
              (l refl) o.1,
          rest,
        ),
      )

  stored_locks :
      (name : String) (names : List String) (r : Repo) (w : World)
      → mem name names ≡ false
      → All (λ n. ((visits n).is_repo ≡ true) × ((w n).tree.has_lock ≡ true)) names
      → All (λ n. ((visits n).is_repo ≡ true) × ((store name r w n).tree.has_lock ≡ true)) names
  unfolding mem
  stored_locks name [] r w h v = tt
  stored_locks name (n ∷ names) r w h v = (
    (
      v.0.0,
      ap (λ x. x.tree.has_lock)
            (stored_apart name n r w (ground (arith, h, eq_iff name n, eq_iff n name)))
          ∙ v.0.1,
    ),
    stored_locks name names r w (ground (arith, h)) v.1,
  )

  push_all-IsWalked :
      (names completed : List String) (w : World)
      → IsOrdered lock.edges names
      → All (λ n. ((visits n).is_repo ≡ true) × ((w n).tree.has_lock ≡ true)) names
      → IsWalked names w (push_all parse nix options (some lock) visits names completed w)
  unfolding push_all IsWalked
  push_all-IsWalked [] completed w o v = λ h. (λ k apart. refl, tt)
  push_all-IsWalked (name ∷ names) completed w o v =
      let visited = visit_repo parse nix options (some lock) visits name w in
      walked-IsWalked name names completed w visited.0 visited.1 o
        (visit_repo-IsLocked name w v.0.0 v.0.1)
        (push_all-IsWalked names (completed ++ name ∷ []) (store name visited.1 w) o.2
          (stored_locks name names visited.1 w o.0 v.1))

  -- Where a push goes through the repositories in an order in which each comes once and behind the targets
  -- of its edges, all of them are cloned and locked, nix resolves each alias to the tip of its target,
  -- and no error is returned: at the end the committed lock of each repository pins, for every edge of
  -- it, the rev that its target is published at.
  pub push_all-IsConverged :
      (names : List String) (w : World)
      → IsOrdered lock.edges names
      → All (λ n. ((visits n).is_repo ≡ true) × ((w n).tree.has_lock ≡ true)) names
      → (push_all parse nix options (some lock) visits names [] w).error ≡ none
      → All (IsConverged (push_all parse nix options (some lock) visits names [] w).world) names
  unfolding IsWalked
  push_all-IsConverged names w o v h = (push_all-IsWalked names [] w o v h).1
