-- ===== src/Workspace/Terminal/Detect.antt =====
-- What the automatic choice of a terminal finds.
use nix_repo_base.Base.{
  ◌≤◌, String, ◌≡◌, refl, sym, ◌∙◌, ◌↔◌, Bool, true, false, not, ◌&&◌, List, [], ◌∷◌, Dict, lookup,
  mem, keep, any, All, count, mem-keep, count-keep, mem-sort_strings, total-sort_strings, is_name,
  sort_strings, ◌==◌, str_eq, eq_iff, eq_refl, arith, Bool-cases, inl, inr,
}
use nix_repo_base.Workspace.Config.{LockRepoEntry, LockEdge}
use nix_repo_base.Workspace.Edges.{keys}
use nix_repo_base.Workspace.Lock.{flake_path_of}
use nix_repo_base.Workspace.Terminal.{
  flake_repos, flake_edges, inbound, sinks, sole, is_connected, reachable_from_node,
  auto_detect_terminal,
}
use nix_repo_base.Workspace.Terminal.Reach.{is_connected-reachable}

abbrev pub has_flake : Dict LockRepoEntry → String → Bool
has_flake repos k = not (str_eq (flake_path_of k repos) "")

abbrev pub joins_flakes : Dict LockRepoEntry → LockEdge → Bool
joins_flakes repos e = has_flake repos e.consumer && has_flake repos e.target

-- A flake that is not a foundation repository, that no flake consumes, and that consumes another one.
abbrev pub is_candidate : List LockEdge → Dict LockRepoEntry → List String → String → Bool
is_candidate edges repos foundation k =
    has_flake repos k
    && not (mem k foundation)
    && not (any (λ e. joins_flakes repos e && str_eq e.target k) edges)
    && any (λ e. joins_flakes repos e && (str_eq e.consumer k && not (str_eq e.target k))) edges

flake_path-keys :
    (k : String) (repos : Dict LockRepoEntry) → has_flake repos k ≡ true → mem k (keys repos) ≡ true
unfolding lookup mem
flake_path-keys k [] h = cc
flake_path-keys k ((j, r) ∷ repos) h = ground (arith, flake_path-keys k repos)

mem-flake_repos :
    (k : String) (repos : Dict LockRepoEntry) → mem k (flake_repos repos) ≡ has_flake repos k
unfolding flake_repos
mem-flake_repos k repos =
    ground (arith, mem-keep k (has_flake repos) (keys repos), flake_path-keys k repos)

inbound-any :
    (es : List LockEdge) (k : String) → (inbound es k == 0) ≡ not (any (λ e. str_eq e.target k) es)
inbound-any [] k = refl
inbound-any (e ∷ es) k = ground (arith, inbound-any es k)

flake_edges-known :
    (flakes : List String) (edges : List LockEdge)
    → All (λ e. mem e.target flakes ≡ true) (flake_edges flakes edges)
flake_edges-known flakes [] = tt
flake_edges-known flakes (e ∷ es) =
    elim (Bool-cases (mem e.consumer flakes && mem e.target flakes)) [
      | inl both ↦ rw both (ground arith, flake_edges-known flakes es)
      | inr missing ↦ rw missing (flake_edges-known flakes es)
    ]

-- A test on the edges between flakes.
any-flake_edges :
    (p : LockEdge → Bool) (repos : Dict LockRepoEntry) (edges : List LockEdge)
    → any p (flake_edges (flake_repos repos) edges) ≡ any (λ e. joins_flakes repos e && p e) edges
any-flake_edges p repos [] = refl
any-flake_edges p repos (e ∷ es) = ground (
  arith,
  any-flake_edges p repos es,
  mem-flake_repos e.consumer repos,
  mem-flake_repos e.target repos,
)

-- The names that auto_detect_terminal takes the only one of.
abbrev found : List LockEdge → Dict LockRepoEntry → List String → List String
found edges repos foundation =
    let flakes = flake_repos repos in
    let es = flake_edges flakes edges in
    keep (λ s. is_connected (reachable_from_node flakes es s)) (sinks flakes es foundation)

mem-sinks :
    (k : String) (flakes : List String) (es : List LockEdge) (foundation : List String)
    → mem k (sinks flakes es foundation)
      ≡ (mem k flakes && (inbound es k == 0 && not (mem k foundation)))
mem-sinks k flakes es foundation =
    mem-sort_strings k (keep (λ k. inbound es k == 0 && not (mem k foundation)) flakes)
    ∙ mem-keep k (λ k. inbound es k == 0 && not (mem k foundation)) flakes

mem-found :
    (edges : List LockEdge) (repos : Dict LockRepoEntry) (foundation : List String) (k : String)
    → mem k (found edges repos foundation) ≡ is_candidate edges repos foundation k
mem-found edges repos foundation k =
    let flakes = flake_repos repos in
    let es = flake_edges flakes edges in
    ground (
      arith,
      mem-keep k (λ s. is_connected (reachable_from_node flakes es s)) (sinks flakes es foundation),
      mem-sinks k flakes es foundation,
      inbound-any es k,
      is_connected-reachable flakes es k (flake_edges-known flakes edges),
      mem-flake_repos k repos,
      any-flake_edges (λ e. str_eq e.target k) repos edges,
      any-flake_edges (λ e. str_eq e.consumer k && not (str_eq e.target k)) repos edges,
    )

found_once :
    (edges : List LockEdge) (repos : Dict LockRepoEntry) (foundation : List String) (k : String)
    → count k (keys repos) ≤ 1
    → count k (found edges repos foundation) ≤ 1
unfolding flake_repos
found_once edges repos foundation k once =
    let flakes = flake_repos repos in
    let es = flake_edges flakes edges in
    let sunk = keep (λ k. inbound es k == 0 && not (mem k foundation)) flakes in
    ground (
      arith,
      count-keep k (λ s. is_connected (reachable_from_node flakes es s)) (sort_strings sunk),
      total-sort_strings (is_name k) sunk,
      count-keep k (λ k. inbound es k == 0 && not (mem k foundation)) flakes,
      count-keep k (has_flake repos) (keys repos),
    )

sole-mem :
    (xs : List String) (t k : String) → str_eq t "" ≡ false → sole xs ≡ t → mem k xs ≡ str_eq t k
unfolding mem
sole-mem [] t k ne h = ground (arith, eq_iff t "", sym h)
sole-mem (x ∷ []) t k ne h = rw h (ground arith)
sole-mem (x ∷ y ∷ xs) t k ne h = ground (arith, eq_iff t "", sym h)

only_mem :
    (xs : List String) (t : String)
    → ((k : String) → count k xs ≤ 1)
    → ((k : String) → mem k xs ≡ str_eq t k)
    → sole xs ≡ t
unfolding mem
only_mem [] t once same = ground (arith, same t, eq_refl t)
only_mem (x ∷ []) t once same = sym ((eq_iff t x).0 (sym (same x) ∙ rw eq_refl refl))
only_mem (x ∷ y ∷ xs) t once same = ground (
  arith,
  once t,
  same x,
  same y,
  eq_refl x,
  eq_refl y,
  eq_iff t x,
  eq_iff t y,
  eq_iff x t,
  eq_iff y t,
  λ (p : t ≡ x). sym p,
  λ (p : t ≡ y). sym p,
)

-- For repositories with distinct keys, the automatic choice is a name exactly if that name is the one
-- flake that is not a foundation repository, that no flake consumes, and that consumes another one;
-- the search for what is reachable, of which only the edges at its start matter, never lacks fuel.
pub auto_detect_iff :
    (edges : List LockEdge) (repos : Dict LockRepoEntry) (foundation : List String) (t : String)
    → ((k : String) → count k (keys repos) ≤ 1)
    → str_eq t "" ≡ false
    → (auto_detect_terminal edges repos foundation ≡ t)
      ↔ ((k : String) → is_candidate edges repos foundation k ≡ str_eq t k)
unfolding auto_detect_terminal
auto_detect_iff edges repos foundation t once named = (
  λ h k.
      sym (mem-found edges repos foundation k)
      ∙ sole-mem (found edges repos foundation) t k named h,
  λ same.
      only_mem (found edges repos foundation) t (λ k. found_once edges repos foundation k (once k))
        (λ k. mem-found edges repos foundation k ∙ same k),
)

-- A name that is chosen is a candidate.
pub auto_detect-candidate :
    (edges : List LockEdge) (repos : Dict LockRepoEntry) (foundation : List String) (t : String)
    → str_eq t "" ≡ false
    → auto_detect_terminal edges repos foundation ≡ t
    → is_candidate edges repos foundation t ≡ true
unfolding auto_detect_terminal
auto_detect-candidate edges repos foundation t named h =
    sym (mem-found edges repos foundation t)
    ∙ sole-mem (found edges repos foundation) t t named h
    ∙ rw eq_refl refl
