-- ===== src/Base/Maps.antt =====
-- Go's `map[string]V` as an association list, and `map[string]bool` or `map[string]struct{}` as a
-- list of keys.
use Prim.Native.Nat.{ℕ, ◌+◌}
use Prim.Native.String.{String}
use mathlib.Core.Path.{◌≡◌, refl}
use mathlib.Core.Bool.{Bool, true, false, ◌||◌}
use mathlib.Core.Option.{Option, none, some}
use mathlib.Core.List.{List, [], ◌∷◌, ◌++◌}
use native.Mathlib.Omega.{arith}
use text.Mathlib.Text.{◌==◌ as str_eq}
use text.Mathlib.TextEquality.{eq_iff}
use nix_repo_base.Base.Tests.{if◌then◌else◌, ltb}
use nix_repo_base.Base.Lists.{total, total-append}

abbrev pub Dict {ℓ} : Type ℓ → Type ℓ
Dict V = List (String × V)

module _ {ℓ} {V : Type ℓ} where
  unfoldable pub lookup : String → Dict V → Option V
  lookup key [] = none
  lookup key ((name, value) ∷ rest) = if str_eq name key then some value else lookup key rest

  -- m[key] = new
  unfoldable pub insert : String → V → Dict V → Dict V
  insert key new [] = (key, new) ∷ []
  insert key new ((name, value) ∷ rest) =
      if str_eq name key then (key, new) ∷ rest else (name, value) ∷ insert key new rest

  pub lookup-insert :
      (key read : String) (new : V) (entries : Dict V)
      → lookup read (insert key new entries)
        ≡ (if str_eq key read then some new else lookup read entries)
  unfolding lookup insert
  lookup-insert key read new [] = refl
  lookup-insert key read new ((name, value) ∷ rest) =
      ground
        (arith, lookup-insert key read new rest, eq_iff name read, eq_iff name key, eq_iff key read)

-- Membership of a key in a set of keys.
unfoldable pub mem : String → List String → Bool
mem k [] = false
mem k (j ∷ s) = str_eq j k || mem k s

-- delete(s, k)
unfoldable pub delete : String → List String → List String
delete k [] = []
delete k (j ∷ s) = let rest = delete k s in if str_eq j k then rest else j ∷ rest

pub mem-delete :
    (k j : String) (s : List String) → mem j (delete k s) ≡ (if str_eq k j then false else mem j s)
unfolding mem delete
mem-delete k j [] = ground arith
mem-delete k j (i ∷ s) = ground (arith, eq_iff k j, eq_iff i k, eq_iff i j, mem-delete k j s)

pub mem-append : (k : String) (s t : List String) → mem k (s ++ t) ≡ (mem k s || mem k t)
unfolding mem
mem-append k [] t = refl
mem-append k (j ∷ s) t = ground (arith, mem-append k s t)

abbrev pub one_if : Bool → ℕ
one_if true = 1
one_if false = 0

abbrev pub is_name : String → String → ℕ
is_name k j = one_if (str_eq j k)

-- How often a key stands in a list.
abbrev pub count : String → List String → ℕ
count k = total (is_name k)

pub mem-count : (k : String) (s : List String) → mem k s ≡ ltb 0 (count k s)
unfolding mem
mem-count k [] = refl
mem-count k (j ∷ s) = ground (arith, mem-count k s)

pub count-append : (k : String) (s t : List String) → count k (s ++ t) ≡ count k s + count k t
count-append k s t = total-append (is_name k) s t
