-- ===== src/Base/Bytes.antt =====
-- Go strings as lists of bytes, where the code takes them apart. Upper-case letters outside ASCII
-- are left as they are by `to_lower`.
use Prim.Native.Nat.{ℕ, ◌+◌}
use Prim.Native.Char.{code}
use Prim.Native.String.{String}
use mathlib.Core.Path.{◌≡◌, refl, ap, sym, ◌∙◌}
use mathlib.Core.Logic.{◌↔◌}
use native.Mathlib.Omega.{arith}
use mathlib.Core.Bool.{Bool, true, false, ◌&&◌, ◌||◌}
use mathlib.Core.Option.{Option, none, some}
use mathlib.Core.List.{List, [], ◌∷◌, map, reverse}
use nix_repo_base.Base.Tests.{if◌then◌else◌, leb, ◌==◌}

abbrev pub Bytes : Type 0
Bytes = List ℕ

-- The bytes of an ASCII literal.
abbrev pub ascii : String → Bytes
ascii String.[] = []
ascii (String.◌∷◌ x rest) = code x ∷ ascii rest

unfoldable pub bytes_eq : Bytes → Bytes → Bool
bytes_eq [] [] = true
bytes_eq (x ∷ xs) (y ∷ ys) = x == y && bytes_eq xs ys
bytes_eq _ _ = false

-- The rest behind a prefix.
unfoldable pub strip_prefix? : Bytes → Bytes → Option Bytes
strip_prefix? [] s = some s
strip_prefix? (p ∷ ps) [] = none
strip_prefix? (p ∷ ps) (c ∷ s) = let rest = strip_prefix? ps s in if p == c then rest else none

abbrev pub is_some {ℓ} : {A : Type ℓ} → Option A → Bool
is_some none = false
is_some (some a) = true

abbrev pub or_self : Option Bytes → Bytes → Bytes
or_self none s = s
or_self (some t) s = t

-- strings.HasPrefix, TrimPrefix and TrimSuffix, with the affix first.
abbrev pub has_prefix : Bytes → Bytes → Bool
has_prefix p s = is_some (strip_prefix? p s)

abbrev pub trim_prefix : Bytes → Bytes → Bytes
trim_prefix p s = or_self (strip_prefix? p s) s

unfoldable pub trim_suffix : Bytes → Bytes → Bytes
trim_suffix p s = elim (strip_prefix? (reverse p) (reverse s)) [ none ↦ s | some t ↦ reverse t ]

-- What stands before and behind the first of these bytes.
unfoldable pub cut : ℕ → Bytes → Option (Bytes × Bytes)
cut b [] = none
cut b (c ∷ s) =
    let rest = cut b s in
    if c == b then some ([], s) else elim rest [ none ↦ none | some (x, y) ↦ some (c ∷ x, y) ]

unfoldable pub has_byte : ℕ → Bytes → Bool
has_byte b [] = false
has_byte b (c ∷ s) = c == b || has_byte b s

abbrev pub lower : ℕ → ℕ
lower c = if leb b'A' c && leb c b'Z' then c + 32 else c

unfoldable pub to_lower : Bytes → Bytes
to_lower = map lower

abbrev pub is_nil : Bytes → Bool
is_nil [] = true
is_nil (c ∷ s) = false

-- s[:len(s)-1], of a string that is not empty.
abbrev pub drop_last : Bytes → Bytes
drop_last [] = []
drop_last (c ∷ []) = []
drop_last (c ∷ d ∷ s) = c ∷ drop_last (d ∷ s)

pub bytes_eq_refl : (s : Bytes) → bytes_eq s s ≡ true
unfolding bytes_eq
bytes_eq_refl [] = refl
bytes_eq_refl (c ∷ s) = ground (arith, bytes_eq_refl s)

pub bytes_eq_sound : (s t : Bytes) → bytes_eq s t ≡ true → s ≡ t
unfolding bytes_eq
bytes_eq_sound [] [] h = refl
bytes_eq_sound [] (d ∷ t) h = cc
bytes_eq_sound (c ∷ s) [] h = cc
bytes_eq_sound (c ∷ s) (d ∷ t) h = ground (
  arith,
  bytes_eq_sound s t,
  λ (same : c ≡ d) (rest : s ≡ t). ap (λ x. x ∷ s) same ∙ ap (λ x. d ∷ x) rest,
)

pub bytes_eq_iff : (s t : Bytes) → (bytes_eq s t ≡ true) ↔ (s ≡ t)
bytes_eq_iff s t = (bytes_eq_sound s t, λ e. sym (ap (bytes_eq s) e) ∙ bytes_eq_refl s)
