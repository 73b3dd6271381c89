-- ===== src/Logs/Nixlog/Ids.antt =====
-- Weights over maps keyed by identifiers, and reads after writes.
use nix_repo_base.Base.{
  ℕ, ◌+◌, ◌≡◌, refl, none, some, List, [], ◌∷◌, total, ◌==◌, if◌then◌else◌, arith,
}
use nix_repo_base.Logs.Nixlog.{at_id, put_id, drop_id}

module _ {ℓ} {V : Type ℓ} where
  -- The weight of the values.
  abbrev pub total_values : (V → ℕ) → List (ℕ × V) → ℕ
  total_values w m = total (λ e. w e.1) m

  pub total-put_id_new :
      (w : V → ℕ) (k : ℕ) (v : V) (m : List (ℕ × V))
      → at_id k m ≡ none
      → total_values w (put_id k v m) ≡ total_values w m + w v
  unfolding at_id put_id
  total-put_id_new w k v [] h = omega arith
  total-put_id_new w k v ((j, u) ∷ m) h = ground (arith, total-put_id_new w k v m)

  pub total-put_id_old :
      (w : V → ℕ) (k : ℕ) (u v : V) (m : List (ℕ × V))
      → at_id k m ≡ some u
      → total_values w (put_id k v m) + w u ≡ total_values w m + w v
  unfolding at_id put_id
  total-put_id_old w k u v [] h = cc
  total-put_id_old w k u v ((j, x) ∷ m) h = ground (arith, total-put_id_old w k u v m)

  pub total-drop_id :
      (w : V → ℕ) (k : ℕ) (u : V) (m : List (ℕ × V))
      → at_id k m ≡ some u
      → total_values w (drop_id k m) + w u ≡ total_values w m
  unfolding at_id drop_id
  total-drop_id w k u [] h = cc
  total-drop_id w k u ((j, x) ∷ m) h = ground (arith, total-drop_id w k u m)

  pub at_id-put_id :
      (k j : ℕ) (v : V) (m : List (ℕ × V))
      → at_id j (put_id k v m) ≡ (if k == j then some v else at_id j m)
  unfolding at_id put_id
  at_id-put_id k j v [] = refl
  at_id-put_id k j v ((i, u) ∷ m) = ground (arith, at_id-put_id k j v m)
