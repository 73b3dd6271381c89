-- ===== src/Logs/Nixlog/Text.antt =====
-- The texts of nixlog.go: its patterns, names of store paths, and what makes an error message safe.
use nix_repo_base.Base.{
  ℕ, zero, suc, ◌+◌, ◌-◌, ◌*◌, ◌^◌, String, Bool, not, ◌&&◌, ◌||◌, Option, none, some, List, [],
  ◌∷◌, ◌++◌, length, ltb, leb, ◌==◌, if◌then◌else◌, any,
}
use mathlib.Core.List.{reverse}
use nix_repo_base.Base.Bytes.{ascii, has_byte, has_prefix, trim_suffix, is_nil}
use nix_repo_base.Base.Regex.{
  Regex, at_start, at_end, class, seq, alt, star, lazy_star, group, char, literal, plus, maybe,
  times, is_digit, is_blank, submatch, replace_all, first_chars,
}
use nix_repo_base.Logs.Nixlog.{Text, ErrorType, build_failed, dependency_failed, max_error_len}

abbrev not_in : String → Regex
not_in s = class (λ c. not (has_byte c (ascii s)))

abbrev hash_char : Regex
hash_char = class (λ c. is_digit c || leb b'a' c && leb c b'z')

abbrev store_prefix : Regex
store_prefix = seq (literal "/nix/store/") (seq (times 32 hash_char) (char b'-'))

-- A drv path in quotes.
abbrev quoted_drv : Regex
quoted_drv =
    seq (char b'\'')
      (seq (group 1 (seq (char b'/') (seq (plus (not_in "'")) (literal ".drv")))) (char b'\''))

abbrev ansi : Regex
ansi =
    seq (char 27) (seq (char b'[') (seq (star (class (λ c. is_digit c || c == b';'))) (char b'm')))

abbrev pub re_cannot_build : Regex
re_cannot_build = seq (literal "Cannot build ") quoted_drv

abbrev pub re_reason : Regex
re_reason = seq (literal "Reason: ") (
    seq (group 1 (lazy_star (class (λ c. not (c == 10)))))
      (seq (maybe (char b'.')) (alt (char 10) at_end)))

abbrev pub re_quoted : Regex
re_quoted = seq (char b'\'') (seq (group 1 (seq (char b'/') (plus (not_in "'")))) (char b'\''))

abbrev pub re_hash_mismatch : Regex
re_hash_mismatch = seq (literal "hash mismatch in fixed-output derivation ") quoted_drv

abbrev pub re_specified : Regex
re_specified =
    seq (literal "specified:")
      (seq (plus (class is_blank)) (group 1 (plus (class (λ c. not (is_blank c))))))

abbrev pub re_interrupted : Regex
re_interrupted =
    seq at_start
      (seq (literal "error:") (seq (plus (class is_blank)) (literal "interrupted by the user")))

abbrev pub re_sqlite_busy : Regex
re_sqlite_busy = seq at_start (
    seq (group 1 (alt (literal "warning") (literal "error (ignored)"))) (
      seq (char b':') (
        seq (plus (class is_blank)) (
          seq (literal "SQLite database '")
            (seq (group 2 (star (not_in "'"))) (literal "' is busy"))))))

abbrev pub re_drv_path : Regex
re_drv_path =
    seq store_prefix (seq (star (class (λ c. not (is_blank c || c == b'\'')))) (literal ".drv"))

abbrev planned : String → String → String → Regex
planned one many verb = seq at_start (
    seq
      (alt (literal one)
        (seq (literal "these ") (seq (group 1 (plus (class is_digit))) (literal many))))
      (literal verb))

abbrev pub re_plan_build : Regex
re_plan_build = planned "this derivation" " derivations" " will be built"

abbrev pub re_plan_fetch : Regex
re_plan_fetch = planned "this path" " paths" " will be fetched"

abbrev pub re_credentials : Regex
re_credentials = seq (group 1 (literal "://")) (
    seq (star (class (λ c. not (has_byte c (ascii "/@:") || is_blank c)))) (
      seq
        (maybe (seq (char b':') (star (class (λ c. not (has_byte c (ascii "/@") || is_blank c))))))
        (char b'@')))

unfoldable pub strip_ansi : Text → Text
strip_ansi s = replace_all ansi (λ g. []) s

-- unicode.IsSpace
abbrev is_space : ℕ → Bool
is_space c =
    leb 9 c && leb c 13
    || any (λ d. d == c) (32 ∷ 133 ∷ 160 ∷ 5760 ∷ 8232 ∷ 8233 ∷ 8239 ∷ 8287 ∷ 12288 ∷ [])
    || leb 8192 c && leb c 8202

trim_left : Text → Text
trim_left [] = []
trim_left (c ∷ s) = let rest = trim_left s in if is_space c then rest else c ∷ s

unfoldable pub trim_space : Text → Text
unfolding trim_left
trim_space s = reverse (trim_left (reverse (trim_left s)))

-- strings.Fields; `word` is what was read of a word, in order.
words : Text → Text → List Text
words word [] = if is_nil word then [] else word ∷ []
words word (c ∷ s) =
    let within = words (word ++ c ∷ []) s in
    let behind = words [] s in
    if not (is_space c) then within else if is_nil word then behind else word ∷ behind

-- strings.Join(…, " ")
join_words : List Text → Text
join_words [] = []
join_words (w ∷ []) = w
join_words (w ∷ v ∷ ws) = w ++ 32 ∷ join_words (v ∷ ws)

unfoldable pub clean_error : Text → Text
unfolding words join_words
clean_error s =
    let redacted = replace_all re_credentials (λ g. g 1 ++ ascii "<redacted>@") s in
    let unhashed = replace_all store_prefix (λ g. ascii "/nix/store/") redacted in
    first_chars max_error_len (join_words (words [] unhashed))

unfoldable pub contains : Text → Text → Bool
contains sub [] = is_nil sub
contains sub (c ∷ s) = has_prefix sub (c ∷ s) || contains sub s

unfoldable pub reason_type : Text → ErrorType
unfolding contains
reason_type reason =
    if contains (ascii "dependency failed") reason || contains (ascii "dependencies failed") reason
    then dependency_failed
    else build_failed

after_last : ℕ → Text → Text → Text
after_last b best [] = best
after_last b best (c ∷ s) = after_last b (if c == b then s else best) s

trim_trailing : ℕ → Text → Text
trim_trailing b [] = []
trim_trailing b (c ∷ s) =
    let rest = trim_trailing b s in if c == b && is_nil rest then [] else c ∷ rest

-- Trimming letters A from both ends leaves nothing exactly if all are A.
unfoldable pub is_placeholder_hash : Text → Bool
unfolding after_last trim_trailing
is_placeholder_hash h =
    let body = trim_trailing b'=' (after_last b'-' h h) in
    not (is_nil body) && not (any (λ c. not (c == b'A')) body)

unfoldable pub first_quoted : Text → Text
first_quoted s = elim (submatch re_quoted s) [ none ↦ [] | some g ↦ g 1 ]

digits_value : ℕ → Text → Option ℕ
digits_value n [] = some n
digits_value n (c ∷ s) =
    let rest = digits_value (n * 10 + (c - 48)) s in if is_digit c then rest else none

-- strconv.Atoi of a group of digits, with 1 where it fails: no digit, or too many.
unfoldable pub count_or_one : Text → ℕ
unfolding digits_value
count_or_one [] = 1
count_or_one (c ∷ s) = elim (digits_value 0 (c ∷ s)) [
  | none ↦ 1
  | some n ↦ if ltb n (2 ^ 63) then n else 1
]

-- path.Base of a path that is not empty.
unfoldable pub base_name : Text → Text
unfolding trim_trailing after_last
base_name p =
    let stem = trim_trailing b'/' p in if is_nil stem then b'/' ∷ [] else after_last b'/' stem stem

abbrev drop_chars : ℕ → Text → Text
drop_chars zero s = s
drop_chars (suc n) [] = []
drop_chars (suc n) (c ∷ s) = drop_chars n s

abbrev char_at : ℕ → Text → ℕ
char_at n [] = 0
char_at zero (c ∷ s) = c
char_at (suc n) (c ∷ s) = char_at n s

-- Of a store path, which is ASCII.
unfoldable pub store_path_name : Text → Text
unfolding base_name
store_path_name [] = []
store_path_name (c ∷ p) =
    let b = base_name (c ∷ p) in
    trim_suffix (ascii ".drv")
      (if ltb 33 (length b) && char_at 32 b == b'-' then drop_chars 33 b else b)
