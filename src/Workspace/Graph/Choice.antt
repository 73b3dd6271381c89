-- ===== src/Workspace/Graph/Choice.antt =====
-- What selectTerminal returns.
use nix_repo_base.Base.{
  ℕ, ◌≤◌, String, ◌≡◌, refl, ap, sym, ◌∙◌, Bool, true, false, not, ◌&&◌, Option, none, some, List,
  [], ◌∷◌, Dict, lookup, ltb, ◌==◌, count, mem, mem-count, sort_strings, mem-sort_strings, str_eq,
  eq_iff, eq_refl, if◌then◌else◌, arith, Bool-cases, inl, inr, ok, err, ok-injective,
}
use nix_repo_base.Workspace.Config.{RepoConfig, WorkspaceConfig}
use nix_repo_base.Workspace.Edges.{keys, is_foundation}
use nix_repo_base.Workspace.Terminal.{TerminalError, check_terminal_not_foundation}
use nix_repo_base.Workspace.Derive.Valid.{has_key-keys}
use nix_repo_base.Workspace.Graph.{
  not_a_node, cannot_be_terminal, foundation_named, degree_zero, check_named, explicit,
  only_candidate, by_tier, select_terminal,
}

-- A node without consumers that is no foundation repository.
abbrev pub is_sink : Dict RepoConfig → Dict ℕ → String → Bool
is_sink repos in_degree k = elim (lookup k in_degree) [
  | none ↦ false
  | some d ↦ d == 0 && not (is_foundation repos k)
]

mem-degree_zero :
    (repos : Dict RepoConfig) (m : Dict ℕ) (k : String)
    → ((x : String) → count x (keys m) ≤ 1)
    → mem k (degree_zero repos m) ≡ is_sink repos m k
unfolding degree_zero mem lookup
mem-degree_zero repos [] k once = refl
mem-degree_zero repos ((j, d) ∷ m) k once = ground (
  arith,
  mem-degree_zero repos m k (λ x. omega (arith, once x)),
  has_key-keys k m,
  mem-count k (keys m),
  once k,
  eq_iff j k,
  λ (e : j ≡ k). ap (λ x. is_foundation repos x) e,
)

only_candidate_ok :
    (ks : List String) (t k : String) → only_candidate ks ≡ ok t → mem k ks ≡ str_eq t k
unfolding mem
only_candidate_ok [] t k h = cc
only_candidate_ok (j ∷ []) t k h =
    let e : j ≡ t = ok-injective h in ground (arith, ap (λ x. str_eq x k) e)
only_candidate_ok (i ∷ j ∷ ks) t k h = cc

explicit_ok :
    (source name t : String) (repos : Dict RepoConfig) (m : Dict ℕ)
    → is_foundation repos name ≡ false
    → explicit source name m ≡ ok t
    → (t ≡ name) × (is_sink repos m name ≡ true)
explicit_ok source name t repos m plain h = by_degree (lookup name m) h
  where
    by_degree :
        (o : Option ℕ)
        → elim o [
          | none ↦ err (not_a_node source name)
          | some d ↦ if ltb 0 d then err (cannot_be_terminal source name d) else ok name
        ]
          ≡ ok t
        → (t ≡ name)
          × (elim o [ none ↦ false | some d ↦ d == 0 && not (is_foundation repos name) ] ≡ true)
    by_degree none h = cc
    by_degree (some d) h = elim (Bool-cases (ltb 0 d)) [
      | inl more ↦ cc (rw more at h)
      | inr zero' ↦ (sym (ok-injective (rw zero' at h)), ground arith)
    ]

check_named_ok :
    (repos : Dict RepoConfig) (flag terminal : String)
    → check_named repos (("--terminal", flag) ∷ ("workspace.terminal", terminal) ∷ []) ≡ none
    → (str_eq flag "" ≡ false → is_foundation repos flag ≡ false)
      × (str_eq terminal "" ≡ false → is_foundation repos terminal ≡ false)
unfolding check_named check_terminal_not_foundation
check_named_ok repos flag terminal h = (λ named. ground arith, λ named. ground arith)

abbrev pub named : WorkspaceConfig → String → String
named cfg flag = if str_eq flag "" then cfg.workspace.terminal else flag

by_tier_ok :
    (cfg : WorkspaceConfig) (m : Dict ℕ) (flag t k : String)
    → ((x : String) → count x (keys m) ≤ 1)
    → check_named cfg.repos
        (("--terminal", flag) ∷ ("workspace.terminal", cfg.workspace.terminal) ∷ [])
      ≡ none
    → by_tier cfg m flag ≡ ok t
    → (is_sink cfg.repos m t ≡ true)
      × ((if str_eq (named cfg flag) "" then is_sink cfg.repos m k else str_eq (named cfg flag) k)
          ≡ str_eq t k)
by_tier_ok cfg m flag t k once checked h =
    let plain = check_named_ok cfg.repos flag cfg.workspace.terminal checked in
    elim (Bool-cases (str_eq flag "")) [
      | inr by_flag ↦
          let (e, s) =
            explicit_ok "--terminal" flag t cfg.repos m (plain.0 by_flag) (rw by_flag at h) in
          (rw e s, rw (by_flag, by_flag, e) refl)
      | inl no_flag ↦ elim (Bool-cases (str_eq cfg.workspace.terminal "")) [
        | inr by_config ↦
            let (e, s) =
              explicit_ok "workspace.terminal" cfg.workspace.terminal t cfg.repos m
                (plain.1 by_config) (rw (no_flag, by_config) at h) in
            (rw e s, rw (no_flag, by_config, e) refl)
        | inl no_config ↦
            let ks = degree_zero cfg.repos m in
            let only = only_candidate_ok (sort_strings ks) t in
            let member =
              λ (x : String). sym (mem-sort_strings x ks) ∙ only x (rw (no_flag, no_config) at h) in
            (
              sym (mem-degree_zero cfg.repos m t once) ∙ member t ∙ eq_refl t,
              rw (no_flag, no_config) (sym (mem-degree_zero cfg.repos m k once) ∙ member k),
            )
      ]
    ]

-- For in-degrees with distinct keys, where selectTerminal succeeds, it returns a repository of the
-- graph that no other one consumes and that is no foundation repository: the flag if one is given,
-- else the configured name if there is one, else the only repository of this kind.
pub select_terminal_sound :
    (cfg : WorkspaceConfig) (in_degree : Dict ℕ) (flag t k : String)
    → ((x : String) → count x (keys in_degree) ≤ 1)
    → select_terminal cfg in_degree flag ≡ ok t
    → (is_sink cfg.repos in_degree t ≡ true)
      × ((if str_eq (named cfg flag) ""
            then is_sink cfg.repos in_degree k
            else str_eq (named cfg flag) k)
          ≡ str_eq t k)
unfolding select_terminal
select_terminal_sound cfg in_degree flag t k once h =
    by_check
      (check_named cfg.repos
        (("--terminal", flag) ∷ ("workspace.terminal", cfg.workspace.terminal) ∷ []))
      refl h
  where
    by_check :
        (o : Option TerminalError)
        → check_named cfg.repos
            (("--terminal", flag) ∷ ("workspace.terminal", cfg.workspace.terminal) ∷ [])
          ≡ o
        → elim o [ some e ↦ err (foundation_named e) | none ↦ by_tier cfg in_degree flag ] ≡ ok t
        → (is_sink cfg.repos in_degree t ≡ true)
          × ((if str_eq (named cfg flag) ""
                then is_sink cfg.repos in_degree k
                else str_eq (named cfg flag) k)
              ≡ str_eq t k)
    by_check none checked h = by_tier_ok cfg in_degree flag t k once checked h
    by_check (some e) checked h = cc
