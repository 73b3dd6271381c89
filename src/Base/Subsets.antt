-- ===== src/Base/Subsets.antt =====
-- The names that pass a test: how often each stands among them, and which tests keep the same.
use Prim.Native.String.{String}
use mathlib.Core.Path.{◌≡◌, refl, ap}
use mathlib.Core.Bool.{Bool, true, ◌&&◌}
use mathlib.Core.List.{List, [], ◌∷◌}
use native.Mathlib.Omega.{arith}
use text.Mathlib.TextEquality.{eq_iff}
use text.Mathlib.TextPositions.{eq_refl}
use nix_repo_base.Base.Tests.{if◌then◌else◌}
use nix_repo_base.Base.Lists.{keep, any, All}
use nix_repo_base.Base.Maps.{mem, count}

pub count-keep :
    (k : String) (p : String → Bool) (xs : List String)
    → count k (keep p xs) ≡ (if p k then count k xs else 0)
count-keep k p [] = ground arith
count-keep k p (x ∷ xs) = ground (arith, count-keep k p xs, eq_iff x k, λ (e : x ≡ k). ap p e)

pub mem-keep :
    (k : String) (p : String → Bool) (xs : List String) → mem k (keep p xs) ≡ (mem k xs && p k)
unfolding mem
mem-keep k p [] = refl
mem-keep k p (x ∷ xs) = ground (arith, mem-keep k p xs, eq_iff x k, λ (e : x ≡ k). ap p e)

pub keep_cong :
    (p q : String → Bool) (xs : List String)
    → ((k : String) → mem k xs ≡ true → p k ≡ q k)
    → keep p xs ≡ keep q xs
unfolding mem
keep_cong p q [] same = refl
keep_cong p q (x ∷ xs) same =
    ground (arith, same x, eq_refl x, keep_cong p q xs (λ k m. same k (ground arith)))

pub any-keep {ℓ} :
    {A : Type ℓ} (p q : A → Bool) (xs : List A) → any p (keep q xs) ≡ any (λ x. q x && p x) xs
any-keep p q [] = refl
any-keep p q (x ∷ xs) = ground (arith, any-keep p q xs)

-- A member of a list of members.
pub All-mem :
    (v cs : List String) (x : String)
    → All (λ c. mem c v ≡ true) cs
    → mem x cs ≡ true
    → mem x v ≡ true
unfolding mem
All-mem v [] x h m = cc
All-mem v (c ∷ cs) x h m =
    ground (arith, h.0, All-mem v cs x h.1, eq_iff c x, λ (e : c ≡ x). ap (λ z. mem z v) e)
