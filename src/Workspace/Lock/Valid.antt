-- ===== src/Workspace/Lock/Valid.antt =====
-- The invariants of a lock, that ParseLock decides them, and that a subset keeps them.
use nix_repo_base.Base.{
  ℕ, suc, ◌+◌, String, ◌≡◌, refl, ap, ◌↔◌, ◌⊎◌, inl, inr, Bool, true, false, not, ◌&&◌, none, some,
  List, [], ◌∷◌, Dict, lookup, mem, keep, All, total, str_eq, eq_iff, if◌then◌else◌, arith,
  Bool-cases,
}
use nix_repo_base.Workspace.Config.{LockRepoEntry, LockEdge, Lock}
use nix_repo_base.Workspace.Lock.{
  has_key, flake_path_of, same_pair, seen_pair, check_edge, check_edges, parse_lock, keep_keys,
  inside, filter_some, empty_lock, filter_lock, excluded_dep_edges,
}

pub record EdgeOk (repos : Dict LockRepoEntry) (e : LockEdge) : Type 0 where
  pub other : str_eq e.consumer e.target ≡ false
  pub consumer_known : has_key e.consumer repos ≡ true
  pub target_known : has_key e.target repos ≡ true
  pub has_flake : str_eq (flake_path_of e.target repos) "" ≡ false

-- No two edges have the same consumer and the same alias.
abbrev pub HasUniqueAliases : List LockEdge → Type 0
HasUniqueAliases [] = Unit
HasUniqueAliases (e ∷ es) = All (λ d. same_pair e d ≡ false) es × HasUniqueAliases es

abbrev pub TerminalOk {ℓ} : {V : Type ℓ} → String → Dict V → Type 0
TerminalOk t repos = (str_eq t "" ≡ true) ⊎ (has_key t repos ≡ true)

-- The five invariants that the comment of ParseLock lists.
pub record IsValid (lock : Lock) : Type 0 where
  pub terminal : TerminalOk lock.terminal lock.repos
  pub edges : All (EdgeOk lock.repos) lock.edges
  pub aliases : HasUniqueAliases lock.edges

check_edge_iff :
    (repos : Dict LockRepoEntry) (i : ℕ) (seen : List LockEdge) (e : LockEdge)
    → (check_edge repos i seen e ≡ none) ↔ (EdgeOk repos e × (seen_pair seen e ≡ false))
unfolding check_edge
check_edge_iff repos i seen e = (
  λ h. (
    record {
      other = ground arith;
      consumer_known = ground arith;
      target_known = ground arith;
      has_flake = ground arith;
    },
    ground arith,
  ),
  λ (o, s). rw (o.other, o.consumer_known, o.target_known, o.has_flake, s) refl,
)

unseen-cons :
    (seen : List LockEdge) (e : LockEdge) (es : List LockEdge)
    → All (λ d. seen_pair (e ∷ seen) d ≡ false) es
    → All (λ d. seen_pair seen d ≡ false) es × All (λ d. same_pair e d ≡ false) es
unseen-cons seen e [] h = (tt, tt)
unseen-cons seen e (d ∷ ds) h =
    let (a, b) = unseen-cons seen e ds h.1 in ((ground arith, a), (ground arith, b))

unseen_both :
    (seen : List LockEdge) (e : LockEdge) (es : List LockEdge)
    → All (λ d. seen_pair seen d ≡ false) es
    → All (λ d. same_pair e d ≡ false) es
    → All (λ d. seen_pair (e ∷ seen) d ≡ false) es
unseen_both seen e [] h k = tt
unseen_both seen e (d ∷ ds) h k = (ground arith, unseen_both seen e ds h.1 k.1)

check_edges_sound :
    (repos : Dict LockRepoEntry) (i : ℕ) (seen es : List LockEdge)
    → check_edges repos i seen es ≡ none
    → All (EdgeOk repos) es × All (λ d. seen_pair seen d ≡ false) es × HasUniqueAliases es
unfolding check_edges
check_edges_sound repos i seen [] h = (tt, tt, tt)
check_edges_sound repos i seen (e ∷ es) h =
    let first : check_edge repos i seen e ≡ none = ground arith in
    let (o, s) = (check_edge_iff repos i seen e).0 first in
    let (os, unseen, aliases) =
      check_edges_sound repos (suc i) (e ∷ seen) es (rw (first, check_edges) at h) in
    let (a, b) = unseen-cons seen e es unseen in ((o, os), (s, a), (b, aliases))

check_edges_complete :
    (repos : Dict LockRepoEntry) (i : ℕ) (seen es : List LockEdge)
    → All (EdgeOk repos) es
    → All (λ d. seen_pair seen d ≡ false) es
    → HasUniqueAliases es
    → check_edges repos i seen es ≡ none
unfolding check_edges
check_edges_complete repos i seen [] o s u = refl
check_edges_complete repos i seen (e ∷ es) o s u =
    rw ((check_edge_iff repos i seen e).1 (o.0, s.0), check_edges)
      (check_edges_complete repos (suc i) (e ∷ seen) es o.1 (unseen_both seen e es s.1 u.0) u.1)

none_seen : (es : List LockEdge) → All (λ d. seen_pair [] d ≡ false) es
none_seen [] = tt
none_seen (e ∷ es) = (refl, none_seen es)

-- ParseLock accepts a lock exactly if it has the five invariants.
pub parse_lock_iff : (lock : Lock) → (parse_lock lock ≡ none) ↔ IsValid lock
unfolding parse_lock
parse_lock_iff lock = (
  λ h.
      let checked : check_edges lock.repos 0 [] lock.edges ≡ none = ground arith in
      let (o, s, u) = check_edges_sound lock.repos 0 [] lock.edges checked in
      record { terminal = ground arith; edges = o; aliases = u },
  λ v. ground (
    arith,
    check_edges_complete lock.repos 0 [] lock.edges v.edges (none_seen lock.edges) v.aliases,
  ),
)

lookup-keep_keys {ℓ} :
    {V : Type ℓ} (members : List String) (k : String) (m : Dict V)
    → lookup k (keep_keys members m) ≡ (if mem k members then lookup k m else none)
unfolding keep_keys lookup
lookup-keep_keys members k [] = ground arith
lookup-keep_keys members k ((j, v) ∷ m) =
    ground
      (arith, lookup-keep_keys members k m, eq_iff j k, λ (e : j ≡ k). ap (λ x. mem x members) e)

kept-lookup {ℓ} :
    {V : Type ℓ} (members : List String) (k : String) (m : Dict V)
    → mem k members ≡ true
    → lookup k (keep_keys members m) ≡ lookup k m
kept-lookup members k m h = rw (lookup-keep_keys, h) refl

EdgeOk-keep :
    (members : List String) (repos : Dict LockRepoEntry) (e : LockEdge)
    → inside members e ≡ true
    → EdgeOk repos e
    → EdgeOk (keep_keys members repos) e
unfolding inside
EdgeOk-keep members repos e m o =
    let consumer = kept-lookup members e.consumer repos (ground arith) in
    let target = kept-lookup members e.target repos (ground arith) in
    record {
      other = o.other;
      consumer_known = rw (consumer, has_key) o.consumer_known;
      target_known = rw (target, has_key) o.target_known;
      has_flake = rw (target, flake_path_of) o.has_flake;
    }

All-keep {ℓ κ λ'} :
    {A : Type ℓ} (P : A → Type κ) (Q : A → Type λ') (p : A → Bool) (xs : List A)
    → ((x : A) → p x ≡ true → P x → Q x)
    → All P xs
    → All Q (keep p xs)
All-keep P Q p [] f h = tt
All-keep P Q p (x ∷ xs) f h = elim (Bool-cases (p x)) [
  | inl yes' ↦ rw yes' (f x yes' h.0, All-keep P Q p xs f h.1)
  | inr no' ↦ rw no' (All-keep P Q p xs f h.1)
]

HasUniqueAliases-keep :
    (p : LockEdge → Bool) (es : List LockEdge) → HasUniqueAliases es → HasUniqueAliases (keep p es)
HasUniqueAliases-keep p [] h = tt
HasUniqueAliases-keep p (e ∷ es) h = elim (Bool-cases (p e)) [
  | inl yes' ↦ rw yes' (
    All-keep (λ d. same_pair e d ≡ false) (λ d. same_pair e d ≡ false) p es (λ x q r. r) h.0,
    HasUniqueAliases-keep p es h.1,
  )
  | inr no' ↦ rw no' (HasUniqueAliases-keep p es h.1)
]

filter_terminal :
    (t : String) (members : List String) (repos : Dict LockRepoEntry)
    → TerminalOk t repos
    → TerminalOk (if not (str_eq t "") && mem t members then t else "") (keep_keys members repos)
filter_terminal t members repos h = elim (Bool-cases (not (str_eq t "") && mem t members)) [
  | inl kept ↦ rw kept (inr (ground (arith, lookup-keep_keys members t repos)))
  | inr dropped ↦ rw dropped (inl refl)
]

filter_some-IsValid :
    (lock : Lock) (members : List String) → IsValid lock → IsValid (filter_some lock members)
unfolding filter_some
filter_some-IsValid lock members v = record {
  terminal = filter_terminal lock.terminal members lock.repos v.terminal;
  edges =
      All-keep (EdgeOk lock.repos) (EdgeOk (keep_keys members lock.repos)) (inside members)
        lock.edges (EdgeOk-keep members lock.repos) v.edges;
  aliases = HasUniqueAliases-keep (inside members) lock.edges v.aliases;
}

empty_lock-IsValid : IsValid empty_lock
empty_lock-IsValid = record { terminal = inl refl; edges = tt; aliases = tt }

-- Restricting a lock that ParseLock accepts, or a nil lock, to any set of members gives a lock that
-- ParseLock accepts.
pub filter_lock-parse_lock :
    (lock : Lock) (members : List String)
    → parse_lock lock ≡ none
    → (parse_lock (filter_lock (some lock) members) ≡ none)
      × (parse_lock (filter_lock none members) ≡ none)
unfolding filter_lock
filter_lock-parse_lock lock members h = (
  (parse_lock_iff (filter_some lock members)).1
      (filter_some-IsValid lock members ((parse_lock_iff lock).0 h)),
  (parse_lock_iff empty_lock).1 empty_lock-IsValid,
)

-- Every edge of a member is in the subset's lock, or reported as excluded, and never both: the counts
-- of an arbitrary kind of edge add up.
pub filter_lock-excluded :
    (w : LockEdge → ℕ) (lock : Lock) (members : List String)
    → total w (filter_lock (some lock) members).edges
        + total w (excluded_dep_edges (some lock) members)
      ≡ total w (keep (λ e. mem e.consumer members) lock.edges)
unfolding filter_lock excluded_dep_edges filter_some inside
filter_lock-excluded w lock members = count_edges lock.edges
  where
    count_edges :
        (es : List LockEdge)
        → total w (keep (λ e. mem e.consumer members && mem e.target members) es)
            + total w (keep (λ e. mem e.consumer members && not (mem e.target members)) es)
          ≡ total w (keep (λ e. mem e.consumer members) es)
    count_edges [] = refl
    count_edges (e ∷ es) = ground (arith, count_edges es)
