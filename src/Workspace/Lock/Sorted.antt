-- ===== src/Workspace/Lock/Sorted.antt =====
-- Sorting the edges of a lock, as WriteLock does, keeps its invariants.
use nix_repo_base.Base.{
  ◌≡◌, refl, ◌∙◌, Bool, false, List, [], ◌∷◌, All, insert_by, sort_by, str_eq_comm, Bool-cases, inl,
  inr, ◌↔◌,
}
use nix_repo_base.Workspace.Config.{LockEdge}
use nix_repo_base.Workspace.Lock.{same_pair}
use nix_repo_base.Workspace.Lock.Valid.{HasUniqueAliases}

module _ {ℓ κ} {A : Type ℓ} (P : A → Type κ) (less : A → A → Bool) where
  All-insert_by : (x : A) (ys : List A) → All P (insert_by less x ys) ↔ (P x × All P ys)
  unfolding insert_by
  All-insert_by x [] = (λ h. h, λ h. h)
  All-insert_by x (y ∷ ys) = elim (Bool-cases (less x y)) [
    | inl first ↦ rw first (λ h. h, λ h. h)
    | inr later ↦
        let (out, into) = All-insert_by x ys in
        rw later
          (λ h. let (px, rest) = out h.1 in (px, (h.0, rest)), λ h. (h.1.0, into (h.0, h.1.1)))
  ]

  pub All-sort_by : (xs : List A) → All P (sort_by less xs) ↔ All P xs
  unfolding sort_by
  All-sort_by [] = (λ h. h, λ h. h)
  All-sort_by (x ∷ xs) =
      let (out, into) = All-insert_by x (sort_by less xs) in
      let (out', into') = All-sort_by xs in
      (λ h. let (px, rest) = out h in (px, out' rest), λ h. into (h.0, into' h.1))

same_pair_comm : (d e : LockEdge) → same_pair d e ≡ same_pair e d
same_pair_comm d e = rw (str_eq_comm d.consumer e.consumer, str_eq_comm d.alias e.alias) refl

HasUniqueAliases-insert_by :
    (less : LockEdge → LockEdge → Bool) (x : LockEdge) (ys : List LockEdge)
    → All (λ d. same_pair x d ≡ false) ys
    → HasUniqueAliases ys
    → HasUniqueAliases (insert_by less x ys)
unfolding insert_by
HasUniqueAliases-insert_by less x [] apart h = (tt, tt)
HasUniqueAliases-insert_by less x (y ∷ ys) apart h = elim (Bool-cases (less x y)) [
  | inl first ↦ rw first (apart, h)
  | inr later ↦ rw later (
    (All-insert_by (λ d. same_pair y d ≡ false) less x ys).1 (same_pair_comm y x ∙ apart.0, h.0),
    HasUniqueAliases-insert_by less x ys apart.1 h.1,
  )
]

pub HasUniqueAliases-sort_by :
    (less : LockEdge → LockEdge → Bool) (es : List LockEdge)
    → HasUniqueAliases es
    → HasUniqueAliases (sort_by less es)
unfolding sort_by
HasUniqueAliases-sort_by less [] h = tt
HasUniqueAliases-sort_by less (e ∷ es) h =
    HasUniqueAliases-insert_by less e (sort_by less es)
      ((All-sort_by (λ d. same_pair e d ≡ false) less es).1 h.0)
      (HasUniqueAliases-sort_by less es h.1)
