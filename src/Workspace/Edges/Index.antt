-- ===== src/Workspace/Edges/Index.antt =====
-- What holds of the index of URLs that buildEdges builds.
use nix_repo_base.Base.{ok, ok-injective, bind_ok}
use nix_repo_base.Base.{
  String, ◌≡◌, inl, inr, true, Option, none, some, List, [], ◌∷◌, Dict, lookup, mem, str_eq,
  eq_refl, arith, Bool-cases,
}
use mathlib.Core.Path.{subst}
use mathlib.Core.Option.{some-injective}
use nix_repo_base.Base.Bytes.{Bytes, bytes_eq}
use nix_repo_base.Workspace.Config.{RepoConfig}
use nix_repo_base.Workspace.Url.{canonical_url}
use nix_repo_base.Workspace.Edges.{
  UrlIndex, lookup_url, claim_canon, claim_nonempty, claim_url, claim_urls, urls_of, build_index,
}

-- Every repository that the index names is one of these.
abbrev pub Indexed : List String → UrlIndex → Type 0
Indexed ks [] = Unit
Indexed ks ((u, k) ∷ m) = (mem k ks ≡ true) × Indexed ks m

pub lookup_url-Indexed :
    (ks : List String) (u : Bytes) (m : UrlIndex) {k : String}
    → Indexed ks m
    → lookup_url u m ≡ some k
    → mem k ks ≡ true
unfolding lookup_url
lookup_url-Indexed ks u [] i h = cc
lookup_url-Indexed ks u ((v, j) ∷ m) {k} i h = elim (Bool-cases (bytes_eq v u)) [
  | inl same ↦ let e : j ≡ k = some-injective j k (rw (same, lookup_url) at h) in rw (← e) i.0
  | inr other ↦ lookup_url-Indexed ks u m i.1 (rw (other, lookup_url) at h)
]

claim_canon-Indexed :
    (ks : List String) (key : String) (canon : Bytes) (m m' : UrlIndex) (o : Option String)
    → mem key ks ≡ true
    → Indexed ks m
    → claim_canon key canon m o ≡ ok m'
    → Indexed ks m'
unfolding claim_canon
claim_canon-Indexed ks key canon m m' none k i h = subst (Indexed ks) (ok-injective h) (k, i)
claim_canon-Indexed ks key canon m m' (some j) k i h = elim (Bool-cases (str_eq j key)) [
  | inl same ↦ subst (Indexed ks) (ok-injective (rw same at h)) (k, i)
  | inr other ↦ cc (rw other at h)
]

claim_nonempty-Indexed :
    (ks : List String) (key : String) (canon : Bytes) (m m' : UrlIndex)
    → mem key ks ≡ true
    → Indexed ks m
    → claim_nonempty key canon m ≡ ok m'
    → Indexed ks m'
unfolding claim_nonempty
claim_nonempty-Indexed ks key [] m m' k i h = subst (Indexed ks) (ok-injective h) i
claim_nonempty-Indexed ks key (c ∷ canon) m m' k i h =
    claim_canon-Indexed ks key (c ∷ canon) m m' (lookup_url (c ∷ canon) m) k i h

claim_url-Indexed :
    (ks : List String) (key : String) (u : Bytes) (m m' : UrlIndex)
    → mem key ks ≡ true
    → Indexed ks m
    → claim_url key u m ≡ ok m'
    → Indexed ks m'
unfolding claim_url
claim_url-Indexed ks key [] m m' k i h = subst (Indexed ks) (ok-injective h) i
claim_url-Indexed ks key (c ∷ u) m m' k i h =
    claim_nonempty-Indexed ks key (canonical_url (c ∷ u)) m m' k i h

claim_urls-Indexed :
    (ks : List String) (key : String) (us : List Bytes) (m m' : UrlIndex)
    → mem key ks ≡ true
    → Indexed ks m
    → claim_urls key us m ≡ ok m'
    → Indexed ks m'
unfolding claim_urls
claim_urls-Indexed ks key [] m m' k i h = subst (Indexed ks) (ok-injective h) i
claim_urls-Indexed ks key (u ∷ us) m m' k i h =
    let (m₁, e, rest) = bind_ok (claim_url key u m) (claim_urls key us) h in
    claim_urls-Indexed ks key us m₁ m' k (claim_url-Indexed ks key u m m₁ k i e) rest

pub build_index-Indexed :
    (ks : List String) (repos : Dict RepoConfig) (todo : List String) (m m' : UrlIndex)
    → ((k : String) → mem k todo ≡ true → mem k ks ≡ true)
    → Indexed ks m
    → build_index repos todo m ≡ ok m'
    → Indexed ks m'
unfolding build_index mem
build_index-Indexed ks repos [] m m' sub i h = subst (Indexed ks) (ok-injective h) i
build_index-Indexed ks repos (k ∷ todo) m m' sub i h =
    let us = urls_of (lookup k repos) in
    let (m₁, e, rest) = bind_ok (claim_urls k us m) (build_index repos todo) h in
    build_index-Indexed ks repos todo m₁ m' (λ j jm. sub j (ground arith))
      (claim_urls-Indexed ks k us m m₁ (sub k (rw eq_refl)) i e) rest
