-- ===== src/Workspace/Edges/Errors.antt =====
-- Which errors buildEdges can return.
use nix_repo_base.Base.{Outcome, ok, err, ◌>>=◌, err-injective}
use nix_repo_base.Base.{
  String, ◌≡◌, ◌≢◌, refl, ◌∙◌, inl, inr, Option, none, some, List, [], ◌∷◌, Dict, lookup, str_eq,
  Bool-cases,
}
use nix_repo_base.Base.Bytes.{Bytes}
use nix_repo_base.Workspace.Config.{RepoConfig}
use nix_repo_base.Workspace.Url.{canonical_url}
use nix_repo_base.Workspace.Edges.{
  EdgesError, nil_map_write, UrlIndex, lookup_url, claim_canon, claim_nonempty, claim_url,
  claim_urls, urls_of, build_index,
}

claim_canon-err :
    (key : String) (canon : Bytes) (m : UrlIndex) (o : Option String) (e : EdgesError)
    → claim_canon key canon m o ≡ err e
    → e ≢ nil_map_write
unfolding claim_canon
claim_canon-err key canon m none e h = λ q. cc
claim_canon-err key canon m (some j) e h = elim (Bool-cases (str_eq j key)) [
  | inl same ↦ λ q. cc (rw same at h)
  | inr other ↦ λ q. cc (rw other at h)
]

claim_url-err :
    (key : String) (u : Bytes) (m : UrlIndex) (e : EdgesError)
    → claim_url key u m ≡ err e
    → e ≢ nil_map_write
unfolding claim_url claim_nonempty
claim_url-err key [] m e h = λ q. cc
claim_url-err key (c ∷ u) m e h = by_canon (canonical_url (c ∷ u)) h
  where
    by_canon : (v : Bytes) → claim_nonempty key v m ≡ err e → e ≢ nil_map_write
    by_canon [] g = λ q. cc
    by_canon (x ∷ v) g = claim_canon-err key (x ∷ v) m (lookup_url (x ∷ v) m) e g

bind-err {ℓ κ} :
    {A : Type ℓ} {B : Type κ} (m : Outcome EdgesError A) (f : A → Outcome EdgesError B)
    (e : EdgesError)
    → ((x : EdgesError) → m ≡ err x → x ≢ nil_map_write)
    → ((a : A) → f a ≡ err e → e ≢ nil_map_write)
    → (m >>= f) ≡ err e
    → e ≢ nil_map_write
bind-err (ok a) f e hm hf h = hf a h
bind-err (err x) f e hm hf h = λ q. hm x refl (err-injective h ∙ q)

claim_urls-err :
    (key : String) (us : List Bytes) (m : UrlIndex) (e : EdgesError)
    → claim_urls key us m ≡ err e
    → e ≢ nil_map_write
unfolding claim_urls
claim_urls-err key [] m e h = λ q. cc
claim_urls-err key (u ∷ us) m e h =
    bind-err (claim_url key u m) (claim_urls key us) e (λ x. claim_url-err key u m x)
      (λ m'. claim_urls-err key us m' e) h

pub build_index-err :
    (repos : Dict RepoConfig) (ks : List String) (m : UrlIndex) (e : EdgesError)
    → build_index repos ks m ≡ err e
    → e ≢ nil_map_write
unfolding build_index
build_index-err repos [] m e h = λ q. cc
build_index-err repos (k ∷ ks) m e h =
    bind-err (claim_urls k (urls_of (lookup k repos)) m) (build_index repos ks) e
      (λ x. claim_urls-err k (urls_of (lookup k repos)) m x) (λ m'. build_index-err repos ks m' e) h
