-- ===== src/Base/Sort.antt =====
-- Insertion sort, for Go's `sort.Slice` and `sort.Strings`. `sort.Slice` is not stable: this is one
-- of the orders that it may return.
use Prim.Native.Nat.{ℕ, ◌+◌, Ordering}
use Prim.Native.String.{String, compare}
use mathlib.Core.Path.{◌≡◌, refl}
use mathlib.Core.Bool.{Bool, true, false, ◌||◌}
use mathlib.Core.List.{List, [], ◌∷◌}
use native.Mathlib.Omega.{arith}
use text.Mathlib.Text.{◌==◌ as str_eq}
use nix_repo_base.Base.Tests.{if◌then◌else◌}
use nix_repo_base.Base.Lists.{total, any}
use nix_repo_base.Base.Maps.{mem}

module _ {ℓ} {A : Type ℓ} where
  unfoldable pub insert_by : (A → A → Bool) → A → List A → List A
  insert_by less x [] = x ∷ []
  insert_by less x (y ∷ ys) =
      let rest = insert_by less x ys in if less x y then x ∷ y ∷ ys else y ∷ rest

  unfoldable pub sort_by : (A → A → Bool) → List A → List A
  unfolding insert_by
  sort_by less [] = []
  sort_by less (x ∷ xs) = insert_by less x (sort_by less xs)

module _ {ℓ} {A : Type ℓ} (less : A → A → Bool) (w : A → ℕ) where
  total-insert_by : (x : A) (xs : List A) → total w (insert_by less x xs) ≡ w x + total w xs
  unfolding insert_by
  total-insert_by x [] = refl
  total-insert_by x (y ∷ ys) = ground (arith, total-insert_by x ys)

  -- Sorting keeps each item as often as it stands in the list.
  pub total-sort_by : (xs : List A) → total w (sort_by less xs) ≡ total w xs
  unfolding sort_by
  total-sort_by [] = refl
  total-sort_by (x ∷ xs) = ground (arith, total-insert_by x (sort_by less xs), total-sort_by xs)

module _ {ℓ} {A : Type ℓ} (less : A → A → Bool) (p : A → Bool) where
  any-insert_by : (x : A) (xs : List A) → any p (insert_by less x xs) ≡ (p x || any p xs)
  unfolding insert_by
  any-insert_by x [] = refl
  any-insert_by x (y ∷ ys) = ground (arith, any-insert_by x ys)

  pub any-sort_by : (xs : List A) → any p (sort_by less xs) ≡ any p xs
  unfolding sort_by
  any-sort_by [] = refl
  any-sort_by (x ∷ xs) = ground (arith, any-insert_by x (sort_by less xs), any-sort_by xs)

-- Go's `<` on strings.
abbrev pub str_lt : String → String → Bool
str_lt s t = elim (compare s t) [ Ordering.lt ↦ true | _ ↦ false ]

unfoldable pub sort_strings : List String → List String
sort_strings xs = sort_by str_lt xs

mem-insert_by :
    (less : String → String → Bool) (k x : String) (xs : List String)
    → mem k (insert_by less x xs) ≡ (str_eq x k || mem k xs)
unfolding insert_by mem
mem-insert_by less k x [] = refl
mem-insert_by less k x (y ∷ ys) = ground (arith, mem-insert_by less k x ys)

pub mem-sort_strings : (k : String) (xs : List String) → mem k (sort_strings xs) ≡ mem k xs
unfolding sort_strings sort_by mem
mem-sort_strings k [] = refl
mem-sort_strings k (x ∷ xs) =
    ground (arith, mem-insert_by str_lt k x (sort_by str_lt xs), mem-sort_strings k xs)

pub total-sort_strings :
    (w : String → ℕ) (xs : List String) → total w (sort_strings xs) ≡ total w xs
unfolding sort_strings
total-sort_strings w xs = total-sort_by str_lt w xs
