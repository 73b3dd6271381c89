-- ===== src/Base/Regex.antt =====
-- Go's regular expressions, as the code uses them: the leftmost match, preferring the first branch, and
-- more rounds of a loop unless it is lazy. A text is a list of characters.
use Prim.Native.Nat.{ℕ, zero, suc, ◌-◌}
use Prim.Native.Char.{code}
use Prim.Native.String.{String}
use mathlib.Core.Bool.{Bool, true, false, ◌&&◌, ◌||◌}
use mathlib.Core.Option.{Option, none, some}
use mathlib.Core.List.{List, [], ◌∷◌, ◌++◌}
use nix_repo_base.Base.Tests.{if◌then◌else◌, leb, ◌==◌}
use nix_repo_base.Base.Lists.{length}

pub data Regex : Type 0 where
  nothing at_start at_end : Regex
  class : (ℕ → Bool) → Regex
  seq alt : Regex → Regex → Regex
  star lazy_star : Regex → Regex
  group : ℕ → Regex → Regex

-- What is left to read, whether nothing was read before, and the groups captured so far.
pub record Cursor : Type 0 where
  pub rest : List ℕ
  pub fresh : Bool
  pub groups : List (ℕ × List ℕ)

abbrev pub first_chars : ℕ → List ℕ → List ℕ
first_chars zero s = []
first_chars (suc n) [] = []
first_chars (suc n) (c ∷ s) = c ∷ first_chars n s

abbrev pub Rest : Type 0
Rest = Cursor → Option Cursor

read_class : (ℕ → Bool) → List ℕ → Rest → Cursor → Option Cursor
read_class p [] next t = none
read_class p (c ∷ s) next t = if p c then next (record t { rest = s; fresh = false }) else none

-- As many rounds as possible, at most one for each character that is left.
greedy : (Rest → Rest) → ℕ → Rest → Rest
greedy body zero next t = next t
greedy body (suc n) next t = elim (body (greedy body n next) t) [ some u ↦ some u | none ↦ next t ]

lazy : (Rest → Rest) → ℕ → Rest → Rest
lazy body zero next t = next t
lazy body (suc n) next t = elim (next t) [ some u ↦ some u | none ↦ body (lazy body n next) t ]

exec : Regex → Rest → Rest
exec nothing next t = next t
exec at_start next t = if t.fresh then next t else none
exec at_end next t = elim t.rest [ [] ↦ next t | c ∷ s ↦ none ]
exec (class p) next t = read_class p t.rest next t
exec (seq a b) next t = exec a (exec b next) t
exec (alt a b) next t = elim (exec a next t) [ some u ↦ some u | none ↦ exec b next t ]
exec (star a) next t = greedy (exec a) (length t.rest) next t
exec (lazy_star a) next t = lazy (exec a) (length t.rest) next t
exec (group i a) next t =
    exec a
      (λ u.
        next (record u {
          groups = (i, first_chars (length t.rest - length u.rest) t.rest) ∷ u.groups;
        }))
      t

abbrev start_at : List ℕ → Bool → Cursor
start_at s fresh = record { rest = s; fresh = fresh; groups = [] }

-- The text before the first match, and the end of the match; `fresh` if the text starts here.
unfoldable pub find : Regex → Bool → List ℕ → Option (List ℕ × Cursor)
unfolding exec greedy lazy read_class
find re fresh [] = elim (exec re some (start_at [] fresh)) [ some u ↦ some ([], u) | none ↦ none ]
find re fresh (c ∷ s) = elim (exec re some (start_at (c ∷ s) fresh)) [
  | some u ↦ some ([], u)
  | none ↦ elim (find re false s) [ none ↦ none | some (before, u) ↦ some (c ∷ before, u) ]
]

abbrev pub group_of : ℕ → List (ℕ × List ℕ) → List ℕ
group_of i [] = []
group_of i ((j, s) ∷ groups) = if j == i then s else group_of i groups

-- MatchString and FindStringSubmatch; a group that took no part is "".
unfoldable pub matches : Regex → List ℕ → Bool
matches re s = elim (find re true s) [ none ↦ false | some m ↦ true ]

unfoldable pub submatch : Regex → List ℕ → Option (ℕ → List ℕ)
submatch re s = elim (find re true s) [
  | none ↦ none
  | some (before, u) ↦ some (λ i. group_of i u.groups)
]

replace_loop : ℕ → Regex → ((ℕ → List ℕ) → List ℕ) → Bool → List ℕ → List ℕ
replace_loop zero re by fresh s = s
replace_loop (suc n) re by fresh s = elim (find re fresh s) [
  | none ↦ s
  | some (before, u) ↦
      before ++ (by (λ i. group_of i u.groups) ++ replace_loop n re by false u.rest)
]

-- ReplaceAllString, for a pattern that matches no empty text: at most one match for each character.
unfoldable pub replace_all : Regex → ((ℕ → List ℕ) → List ℕ) → List ℕ → List ℕ
unfolding replace_loop
replace_all re by s = replace_loop (length s) re by true s

-- The pieces of a pattern.
abbrev pub char : ℕ → Regex
char c = class (λ d. d == c)

abbrev pub literal : String → Regex
literal String.[] = nothing
literal (String.◌∷◌ c s) = seq (char (code c)) (literal s)

abbrev pub plus : Regex → Regex
plus a = seq a (star a)

abbrev pub maybe : Regex → Regex
maybe a = alt a nothing

abbrev pub times : ℕ → Regex → Regex
times zero a = nothing
times (suc n) a = seq a (times n a)

abbrev pub is_digit : ℕ → Bool
is_digit c = leb b'0' c && leb c b'9'

-- `\s`
abbrev pub is_blank : ℕ → Bool
is_blank c = c == 32 || c == 9 || c == 10 || c == 12 || c == 13
