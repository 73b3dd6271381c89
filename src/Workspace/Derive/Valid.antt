-- ===== src/Workspace/Derive/Valid.antt =====
-- When the lock that is written is one that ParseLock accepts.
use mathlib.Core.Path.{subst}
use nix_repo_base.Base.{
  ◌≤◌, String, ◌≡◌, refl, ap, sym, ◌∙◌, ◌↔◌, inl, inr, Bool, true, false, none, some, List, [], ◌∷◌,
  ◌++◌, map, Dict, lookup, mem, mem-sort_strings, keep, All, All-map, count, str_eq, eq_iff, arith,
  Bool-cases, Outcome, ok, err, ok-injective, bind_ok, sort_by,
}
use nix_repo_base.Workspace.Config.{RepoConfig, WorkspaceConfig, LockRepoEntry, LockEdge, Lock}
use nix_repo_base.Workspace.Edges.{keys, specs_of, ordered_repo_names, build_edges}
use nix_repo_base.Workspace.Edges.Valid.{Joins}
use nix_repo_base.Workspace.Edges.Order.{build_edges-edges}
use nix_repo_base.Workspace.Lock.{has_key, flake_path_of, parse_lock, written_lock, edge_less}
use nix_repo_base.Workspace.Lock.Valid.{EdgeOk, TerminalOk, parse_lock_iff}
use nix_repo_base.Workspace.Lock.Sorted.{All-sort_by, HasUniqueAliases-sort_by}
use nix_repo_base.Workspace.Terminal.{Issue, eval_failed, resolve_terminal}
use nix_repo_base.Workspace.Terminal.Resolve.{Usable, resolve_terminal_sound}
use nix_repo_base.Workspace.Derive.{
  Disk, DeriveError, edges_failed, terminal_failed, wrapped, lock_entries, terminal_missing,
  missing_flakes, derive_lock, is_blocking, unless_blocked, write_derived_lock,
}

pub wrapped_ok {ℓ} :
    {E : Type 0} {A : Type ℓ} (f : E → DeriveError) (r : Outcome E A) (a : A)
    → wrapped f r ≡ ok a
    → r ≡ ok a
wrapped_ok f (err x) a h = cc
wrapped_ok f (ok y) a h = cc

unblocked :
    (lock : Lock) (is' : List Issue) (out : Lock)
    → unless_blocked lock is' ≡ ok out
    → (is' ≡ []) × (out ≡ written_lock lock)
unblocked lock [] out h = (refl, sym (ok-injective h))
unblocked lock (i ∷ is') out h = cc

-- What a success of WriteDerivedLockTo has computed.
record Written (cfg : WorkspaceConfig) (flag : String) (allow : Bool) (disk : Disk) (out : Lock)
    : Type 0 where
  lock : Lock
  issues : List Issue
  edges_ok : build_edges cfg.repos disk.input_urls ≡ ok (lock.edges, lock.order)
  entries : lock.repos ≡ lock_entries disk.flake_path cfg.repos
  terminal_ok : resolve_terminal (some cfg) flag lock.edges lock.repos ≡ ok (lock.terminal, issues)
  unhindered :
      keep (is_blocking allow) (
        issues
        ++ terminal_missing lock.terminal
        ++ missing_flakes disk.dir_exists lock.repos [] lock.edges
        ++ map eval_failed disk.failed)
      ≡ []
  result : out ≡ written_lock lock

write_derived_lock-Written :
    (cfg : WorkspaceConfig) (flag : String) (allow : Bool) (disk : Disk) (out : Lock)
    → write_derived_lock cfg flag allow disk ≡ ok out
    → Written cfg flag allow disk out
unfolding write_derived_lock derive_lock
write_derived_lock-Written cfg flag allow disk out h =
    let (d, derived, final) = bind_ok (derive_lock cfg flag disk) _ h in
    let (built, be, rest) =
      bind_ok (wrapped edges_failed (build_edges cfg.repos disk.input_urls)) _ derived in
    let repos = lock_entries disk.flake_path cfg.repos in
    let (resolved, re, last) =
      bind_ok (wrapped terminal_failed (resolve_terminal (some cfg) flag built.0 repos)) _ rest in
    let same = ok-injective last in
    let (clear, written) = unblocked d.0 (keep (is_blocking allow) d.1) out final in
    let lock' : Lock = record {
      terminal = resolved.0;
      order = built.1;
      repos = repos;
      edges = built.0;
    } in
    record {
      lock = lock';
      issues = resolved.1;
      edges_ok = wrapped_ok edges_failed _ built be;
      entries = refl;
      terminal_ok = wrapped_ok terminal_failed _ resolved re;
      unhindered = ap (λ (r : Lock × List Issue). keep (is_blocking allow) r.1) same ∙ clear;
      result = written ∙ ap (λ (r : Lock × List Issue). written_lock r.0) (sym same);
    }

pub has_key-keys {ℓ} : {V : Type ℓ} (k : String) (m : Dict V) → has_key k m ≡ mem k (keys m)
unfolding lookup mem
has_key-keys k [] = refl
has_key-keys k ((j, v) ∷ m) = ground (arith, has_key-keys k m)

pub has_key-lock_entries :
    (k : String) (flake_path : String → String) (repos : Dict RepoConfig)
    → has_key k (lock_entries flake_path repos) ≡ has_key k repos
unfolding lock_entries lookup
has_key-lock_entries k flake_path [] = refl
has_key-lock_entries k flake_path ((j, r) ∷ repos) =
    ground (arith, has_key-lock_entries k flake_path repos)

-- A chosen terminal is a repository of the lock, if a configured one is in the configuration.
terminal_known :
    (cfg : WorkspaceConfig) (flake_path : String → String) (t : String)
    → TerminalOk cfg.workspace.terminal cfg.repos
    → Usable (some cfg) (lock_entries flake_path cfg.repos) t
    → TerminalOk t (lock_entries flake_path cfg.repos)
terminal_known cfg flake_path t configured (inl empty) = inl empty
terminal_known cfg flake_path t configured (inr (f, known)) =
    elim (Bool-cases (str_eq t cfg.workspace.terminal)) [
      | inr other ↦ inr (ground (arith, has_key-lock_entries t flake_path cfg.repos))
      | inl same ↦
          let e = (eq_iff t cfg.workspace.terminal).0 same in
          elim configured [
            | inl empty ↦ inl (rw e empty)
            | inr found ↦ inr (has_key-lock_entries t flake_path cfg.repos ∙ rw e found)
          ]
    ]

Joins-EdgeOk :
    (repos : Dict RepoConfig) (flake_path : String → String) (e : LockEdge)
    → Joins (ordered_repo_names repos) e
    → str_eq (flake_path_of e.target (lock_entries flake_path repos)) "" ≡ false
    → EdgeOk (lock_entries flake_path repos) e
unfolding ordered_repo_names
Joins-EdgeOk repos flake_path e j f = record {
  other = j.other;
  consumer_known = known e.consumer j.consumer;
  target_known = known e.target j.target;
  has_flake = f;
}
  where
    known :
        (k : String)
        → mem k (ordered_repo_names repos) ≡ true
        → has_key k (lock_entries flake_path repos) ≡ true
    known k m =
        has_key-lock_entries k flake_path repos
        ∙ has_key-keys k repos
        ∙ sym (mem-sort_strings k (keys repos))
        ∙ m

All-both {ℓ κ λ' μ} :
    {A : Type ℓ} (P : A → Type κ) (Q : A → Type λ') (R : A → Type μ) (xs : List A)
    → ((x : A) → P x → Q x → R x)
    → All P xs
    → All Q xs
    → All R xs
All-both P Q R [] f p q = tt
All-both P Q R (x ∷ xs) f p q = (f x p.0 q.0, All-both P Q R xs f p.1 q.1)

abbrev pub HasTarget : Dict LockRepoEntry → LockEdge → Type 0
HasTarget repos e = str_eq (flake_path_of e.target repos) "" ≡ false

keep-append {ℓ} :
    {A : Type ℓ} (p : A → Bool) (xs ys : List A)
    → keep p (xs ++ ys) ≡ []
    → (keep p xs ≡ []) × (keep p ys ≡ [])
keep-append p [] ys h = (refl, h)
keep-append p (x ∷ xs) ys h = elim (Bool-cases (p x)) [
  | inl kept ↦ cc (rw kept at h)
  | inr dropped ↦ rw dropped (keep-append p xs ys (rw dropped at h))
]

-- An issue that blocks is raised for each target without a flake whose directory exists.
missing_flakes-none :
    (dir_exists : String → Bool) (allow : Bool) (repos : Dict LockRepoEntry) (es : List LockEdge)
    → keep (is_blocking allow) (missing_flakes dir_exists repos [] es) ≡ []
    → All (λ e. dir_exists e.target ≡ true) es
    → All (HasTarget repos) es
unfolding missing_flakes mem
missing_flakes-none dir_exists allow repos [] h present = tt
missing_flakes-none dir_exists allow repos (e ∷ es) h present =
    elim (Bool-cases (str_eq (flake_path_of e.target repos) "")) [
      | inl lacks ↦ cc (rw (lacks, present.0, missing_flakes) at h)
      | inr has ↦ (
        has,
        missing_flakes-none dir_exists allow repos es (rw (has, missing_flakes) at h) present.1,
      )
    ]

module _ (cfg : WorkspaceConfig) (flag : String) (allow : Bool) (disk : Disk) (out : Lock)
    (once : (k : String) → count k (keys cfg.repos) ≤ 1)
    (aliases : (c x : String) → count x (keys (specs_of disk.input_urls c)) ≤ 1)
    (configured : TerminalOk cfg.workspace.terminal cfg.repos)
    (success : write_derived_lock cfg flag allow disk ≡ ok out) where
  written : Written cfg flag allow disk out
  written = write_derived_lock-Written cfg flag allow disk out success

  -- The lock that WriteDerivedLockTo writes, for a configuration with distinct keys whose terminal is
  -- empty or a repository, is accepted by ParseLock exactly if every edge target has a flake path.
  pub write_derived_lock_iff : (parse_lock out ≡ none) ↔ All (HasTarget out.repos) out.edges
  unfolding written_lock
  write_derived_lock_iff =
      let lock = written.lock in
      let es = lock.edges in
      let joins =
        build_edges-edges cfg.repos disk.input_urls once aliases es lock.order written.edges_ok in
      let usable =
        resolve_terminal_sound (some cfg) flag es lock.repos lock.terminal written.issues
          written.terminal_ok in
      let sorted = sort_by edge_less es in
      let ks = ordered_repo_names cfg.repos in
      rw written.result (
        λ h.
            All-map (EdgeOk lock.repos) (HasTarget lock.repos) sorted (λ e o. o.has_flake)
              ((parse_lock_iff (written_lock lock)).0 h).edges,
        λ h. (parse_lock_iff (written_lock lock)).1 (record {
          terminal = rw written.entries (
              terminal_known cfg disk.flake_path lock.terminal configured
                (subst (λ r. Usable (some cfg) r lock.terminal) written.entries usable.1));
          edges =
              All-both (Joins ks) (HasTarget lock.repos) (EdgeOk lock.repos) sorted
                (rw written.entries (Joins-EdgeOk cfg.repos disk.flake_path))
                ((All-sort_by (Joins ks) edge_less es).1 joins.0) h;
          aliases = HasUniqueAliases-sort_by edge_less es joins.1;
        }),
      )

  -- Under the same conditions, where the directory of every edge target exists on disk, ParseLock
  -- accepts the lock that is written.
  pub write_derived_lock-parse_lock :
      All (λ e. disk.dir_exists e.target ≡ true) out.edges → parse_lock out ≡ none
  unfolding written_lock
  write_derived_lock-parse_lock present =
      let lock = written.lock in
      let es = lock.edges in
      let missing = missing_flakes disk.dir_exists lock.repos [] es in
      let others = written.issues ++ terminal_missing lock.terminal in
      let front =
        keep-append (is_blocking allow) (others ++ missing) (map eval_failed disk.failed)
          written.unhindered in
      let clear = (keep-append (is_blocking allow) others missing front.0).1 in
      let present' = (All-sort_by (λ e. disk.dir_exists e.target ≡ true) edge_less es).0 (
        subst (λ (l : Lock). All (λ e. disk.dir_exists e.target ≡ true) l.edges) written.result
          present) in
      write_derived_lock_iff.1 (
        rw written.result (
          (All-sort_by (HasTarget lock.repos) edge_less es).1
            (missing_flakes-none disk.dir_exists allow lock.repos es clear present')))
