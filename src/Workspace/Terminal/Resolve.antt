-- ===== src/Workspace/Terminal/Resolve.antt =====
-- Which terminal resolveTerminal returns, and when it warns.
use nix_repo_base.Base.{
  String, ◌≡◌, refl, ap, sym, ◌∙◌, ◌⊎◌, inl, inr, true, false, not, ◌&&◌, ◌||◌, Option, none, some,
  List, [], ◌∷◌, Dict, lookup, mem, mem-keep, any, sort_strings, mem-sort_strings, str_eq, eq_iff,
  eq_refl, if◌then◌else◌, arith, Bool-cases, ok, ok-injective, bind_ok,
}
use nix_repo_base.Workspace.Config.{RepoConfig, WorkspaceConfig, LockRepoEntry, LockEdge}
use nix_repo_base.Workspace.Edges.{keys, is_foundation}
use nix_repo_base.Workspace.Lock.{has_key}
use nix_repo_base.Workspace.Terminal.{
  Issue, terminal_not_sink, check_terminal_not_foundation, foundation_keys, flagged, configured,
  detected, sink_issues, not_sink, consumers, consumers_of, repos_of, terminal_of,
  auto_detect_terminal, resolve_terminal,
}
use nix_repo_base.Workspace.Terminal.Detect.{auto_detect-candidate, has_flake}

-- What the steps of a success return.
pub record Steps (cfg : Option WorkspaceConfig) (flag : String) (edges : List LockEdge)
    (repos : Dict LockRepoEntry) (t : String) (issues : List Issue) : Type 0 where
  pub by_flag : String
  pub by_config : String
  pub flag_ok : flagged cfg flag repos ≡ ok by_flag
  pub config_ok : configured cfg by_flag ≡ ok by_config
  pub result : t ≡ detected cfg edges repos by_config
  pub warned : issues ≡ sink_issues t edges

pub resolve_terminal-Steps :
    (cfg : Option WorkspaceConfig) (flag : String) (edges : List LockEdge)
    (repos : Dict LockRepoEntry) (t : String) (issues : List Issue)
    → resolve_terminal cfg flag edges repos ≡ ok (t, issues)
    → Steps cfg flag edges repos t issues
unfolding resolve_terminal
resolve_terminal-Steps cfg flag edges repos t issues h =
    let (a, fa, rest) = bind_ok (flagged cfg flag repos) _ h in
    let (b, cb, last) = bind_ok (configured cfg a) _ rest in
    let same = ok-injective last in
    let terminal = ap (λ (r : String × List Issue). r.0) same in
    record {
      by_flag = a;
      by_config = b;
      flag_ok = fa;
      config_ok = cb;
      result = sym terminal;
      warned =
          sym (ap (λ (r : String × List Issue). r.1) same) ∙ ap (λ x. sink_issues x edges) terminal;
    }

check_ok :
    (source name : String) (repos : Dict RepoConfig) (a : String)
    → check_terminal_not_foundation source name repos ≡ ok a
    → (a ≡ name) × (is_foundation repos name ≡ false)
unfolding check_terminal_not_foundation
check_ok source name repos a h = elim (Bool-cases (is_foundation repos name)) [
  | inl yes' ↦ cc (rw yes' at h)
  | inr no' ↦ (sym (ok-injective (rw no' at h)), no')
]

-- No name, or a known one that is not a foundation repository.
abbrev pub Usable : Option WorkspaceConfig → Dict LockRepoEntry → String → Type 0
Usable cfg repos t =
    (str_eq t "" ≡ true)
    ⊎ ((is_foundation (repos_of cfg) t ≡ false)
        × ((has_key t repos || has_key t (repos_of cfg)) || str_eq t (terminal_of cfg) ≡ true))

flagged_ok :
    (cfg : Option WorkspaceConfig) (flag : String) (repos : Dict LockRepoEntry) (a : String)
    → flagged cfg flag repos ≡ ok a
    → (a ≡ flag) × Usable cfg repos a
unfolding flagged
flagged_ok cfg flag repos a h = elim (Bool-cases (str_eq flag "")) [
  | inl empty ↦
      let e : "" ≡ a = ok-injective (rw (empty, flagged) at h) in
      (sym e ∙ sym ((eq_iff flag "").0 empty), inl (rw (sym e) refl))
  | inr named ↦ elim (Bool-cases (has_key flag repos || has_key flag (repos_of cfg))) [
    | inl found ↦
        let (e, f) =
          check_ok "--terminal" flag (repos_of cfg) a (rw (named, found, flagged) at h) in
        (e, rw e (inr (f, rw found refl)))
    | inr missing ↦ cc (rw (named, missing, flagged) at h)
  ]
]

configured_ok :
    (cfg : Option WorkspaceConfig) (repos : Dict LockRepoEntry) (a b : String)
    → Usable cfg repos a
    → configured cfg a ≡ ok b
    → (b ≡ (if str_eq a "" then terminal_of cfg else a)) × Usable cfg repos b
unfolding configured
configured_ok cfg repos a b u h =
    elim (Bool-cases (not (str_eq a "") || str_eq (terminal_of cfg) "")) [
      | inl keeps ↦
          let e : a ≡ b = ok-injective (rw (keeps, configured) at h) in
          (
            sym e
                ∙ ground (
                  arith,
                  eq_iff a "",
                  eq_iff (terminal_of cfg) "",
                  λ (p : a ≡ "") (q : terminal_of cfg ≡ ""). p ∙ sym q,
                ),
            rw (sym e) u,
          )
      | inr takes ↦
          let (e, f) =
            check_ok "workspace.terminal" (terminal_of cfg) (repos_of cfg) b
              (rw (takes, configured) at h) in
          (e ∙ ground (arith, takes), rw e (inr (f, ground (arith, eq_refl (terminal_of cfg)))))
    ]

mem-foundation_keys :
    (cfg : Option WorkspaceConfig) (k : String)
    → mem k (foundation_keys cfg) ≡ is_foundation (repos_of cfg) k
unfolding foundation_keys is_foundation mem lookup
mem-foundation_keys none k = refl
mem-foundation_keys (some cfg) k =
    mem-keep k (is_foundation cfg.repos) (keys cfg.repos) ∙ ground (arith, known cfg.repos)
  where
    known : (repos : Dict RepoConfig) → is_foundation repos k ≡ true → mem k (keys repos) ≡ true
    known [] h = cc
    known ((j, r) ∷ repos) h = ground (arith, known repos)

has_flake-known :
    (t : String) (repos : Dict LockRepoEntry) → has_flake repos t ≡ true → has_key t repos ≡ true
has_flake-known t repos h = by_entry (lookup t repos) h
  where
    by_entry :
        (o : Option LockRepoEntry)
        → not (str_eq (elim o [ none ↦ "" | some v ↦ v.flake_path ]) "") ≡ true
        → elim o [ none ↦ false | some v ↦ true ] ≡ true
    by_entry none h = cc
    by_entry (some v) h = refl

detected_ok :
    (cfg : Option WorkspaceConfig) (edges : List LockEdge) (repos : Dict LockRepoEntry) (b : String)
    → Usable cfg repos b
    → Usable cfg repos (detected cfg edges repos b)
unfolding detected
detected_ok cfg edges repos b u = elim (Bool-cases (str_eq b "")) [
  | inr named ↦ rw (named, detected) u
  | inl empty ↦ rw (empty, detected) (automatic (Bool-cases (str_eq t "")))
]
  where
    t : String
    t = auto_detect_terminal edges repos (foundation_keys cfg)

    automatic : (str_eq t "" ≡ true) ⊎ (str_eq t "" ≡ false) → Usable cfg repos t
    automatic (inl none') = inl none'
    automatic (inr chosen) =
        let c = auto_detect-candidate edges repos (foundation_keys cfg) t chosen refl in
        inr
          (ground (arith, c, mem-foundation_keys cfg t), ground (arith, c, has_flake-known t repos))

mem-consumers :
    (name c : String) (edges : List LockEdge)
    → mem c (consumers name edges) ≡ any (λ e. str_eq e.target name && str_eq e.consumer c) edges
unfolding consumers mem
mem-consumers name c [] = refl
mem-consumers name c (e ∷ es) = ground (
  arith,
  mem-consumers name c es,
  eq_iff e.consumer c,
  λ (p : e.consumer ≡ c). ap (λ x. mem x (consumers name es)) p,
)

any_targets :
    (name c : String) (edges : List LockEdge)
    → any (λ e. str_eq e.target name && str_eq e.consumer c) edges ≡ true
    → any (λ e. str_eq e.target name) edges ≡ true
any_targets name c [] h = h
any_targets name c (e ∷ es) h = ground (arith, any_targets name c es)

no_targets :
    (name : String) (edges : List LockEdge)
    → ((c : String) → any (λ e. str_eq e.target name && str_eq e.consumer c) edges ≡ false)
    → any (λ e. str_eq e.target name) edges ≡ false
no_targets name [] h = refl
no_targets name (e ∷ es) h =
    ground (arith, h e.consumer, eq_refl e.consumer, no_targets name es (λ c. tail_none c (h c)))
  where
    tail_none :
        (c : String)
        → any (λ e. str_eq e.target name && str_eq e.consumer c) (e ∷ es) ≡ false
        → any (λ e. str_eq e.target name && str_eq e.consumer c) es ≡ false
    tail_none c h = ground arith

warns :
    (t : String) (edges : List LockEdge) (xs : List String)
    → ((c : String) → mem c xs ≡ any (λ e. str_eq e.target t && str_eq e.consumer c) edges)
    → not_sink t xs
      ≡ (if any (λ e. str_eq e.target t) edges then terminal_not_sink t xs ∷ [] else [])
unfolding mem
warns t edges [] h = rw (no_targets t edges (λ c. sym (h c))) refl
warns t edges (c ∷ cs) h = rw (any_targets t c edges (sym (h c) ∙ rw eq_refl refl)) refl

sink_issues-any :
    (t : String) (edges : List LockEdge)
    → sink_issues t edges ≡ (
        if not (str_eq t "") && any (λ e. str_eq e.target t) edges
        then terminal_not_sink t (consumers_of t edges) ∷ []
        else [])
unfolding sink_issues consumers_of
sink_issues-any t edges = ground (
  arith,
  warns t edges (sort_strings (consumers t edges))
      (λ c. mem-sort_strings c (consumers t edges) ∙ mem-consumers t c edges),
)

-- The flag, else the configured name, else the automatic choice.
abbrev pub preferred : Option WorkspaceConfig → String → List LockEdge → Dict LockRepoEntry → String
preferred cfg flag edges repos =
    if not (str_eq flag "")
    then flag
    else if not (str_eq (terminal_of cfg) "")
    then terminal_of cfg
    else auto_detect_terminal edges repos (foundation_keys cfg)

-- Where resolveTerminal succeeds, it returns the flag if one is given, else the configured name if
-- there is one, else the automatic choice; the name is empty, or it is no foundation repository and
-- is a repository of the lock, one of the configuration, or the configured name; and the one warning,
-- with the consumers in it, comes exactly if an edge has this name as its target.
pub resolve_terminal_sound :
    (cfg : Option WorkspaceConfig) (flag : String) (edges : List LockEdge)
    (repos : Dict LockRepoEntry) (t : String) (issues : List Issue)
    → resolve_terminal cfg flag edges repos ≡ ok (t, issues)
    → (t ≡ preferred cfg flag edges repos)
      × Usable cfg repos t
      × (issues ≡ (
          if not (str_eq t "") && any (λ e. str_eq e.target t) edges
          then terminal_not_sink t (consumers_of t edges) ∷ []
          else []))
unfolding detected
resolve_terminal_sound cfg flag edges repos t issues h =
    let s = resolve_terminal-Steps cfg flag edges repos t issues h in
    let (a, ua) = flagged_ok cfg flag repos s.by_flag s.flag_ok in
    let (b, ub) = configured_ok cfg repos s.by_flag s.by_config ua s.config_ok in
    (
      s.result
          ∙ ap (detected cfg edges repos)
              (b ∙ ap (λ x. if str_eq x "" then terminal_of cfg else x) a)
          ∙ ground arith,
      rw s.result (detected_ok cfg edges repos s.by_config ub),
      s.warned ∙ sink_issues-any t edges,
    )
