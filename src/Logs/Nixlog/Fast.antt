-- ===== src/Logs/Nixlog/Fast.antt =====
-- suffixID, fastFields and decodeFields of nixlog.go: a progress line read without a JSON decoder. A
-- byte line is a list of numbers below 256.
pub mod Printed
use nix_repo_base.Base.{
  ℕ, zero, suc, ◌+◌, ◌-◌, ◌*◌, ◌%◌, ◌^◌, Bool, true, false, not, ◌&&◌, ◌||◌, Option, none, some,
  List, [], ◌∷◌, ◌++◌, length, ltb, leb, ◌==◌, if◌then◌else◌,
}
use mathlib.Core.List.{reverse}
use nix_repo_base.Base.Bytes.{Bytes, ascii, strip_prefix?, is_nil}
use nix_repo_base.Base.Regex.{is_digit}
use nix_repo_base.Logs.Nixlog.{Json, number, null_json}

abbrev pub key_id : Bytes
key_id = ascii "\"id\":"

abbrev pub key_fields : Bytes
key_fields = ascii "\"fields\":["

abbrev pub prefix_result : Bytes
prefix_result = ascii "{\"action\":\"result\""

abbrev pub suffix_101 : Bytes
suffix_101 = ascii "\"type\":101}"

abbrev pub suffix_105 : Bytes
suffix_105 = ascii "\"type\":105}"

-- The text behind the last and behind the first occurrence of a key.
behind_last : Bytes → Bytes → Option Bytes
behind_last key [] = strip_prefix? key []
behind_last key (c ∷ s) = elim (behind_last key s) [
  | some r ↦ some r
  | none ↦ strip_prefix? key (c ∷ s)
]

behind_first : Bytes → Bytes → Option Bytes
behind_first key [] = strip_prefix? key []
behind_first key (c ∷ s) = elim (strip_prefix? key (c ∷ s)) [
  | some r ↦ some r
  | none ↦ behind_first key s
]

-- `id = id*10 + uint64(c-'0')`
digits_id : ℕ → Bytes → Option ℕ
digits_id id [] = some id
digits_id id (c ∷ s) =
    let rest = digits_id ((id * 10 + (c - 48)) % 2 ^ 64) s in if is_digit c then rest else none

-- What stands before the last byte, if that is a comma; of a reversed text.
comma_first : Bytes → Option Bytes
comma_first [] = none
comma_first (c ∷ r) = if c == b',' then some (reverse r) else none

before_comma : Bytes → Option Bytes
unfolding comma_first
before_comma s = comma_first (reverse s)

id_of : Bytes → Option ℕ
id_of digits = if is_nil digits || ltb 19 (length digits) then none else digits_id 0 digits

digits_of : Option Bytes → Option ℕ
digits_of none = none
digits_of (some digits) = id_of digits

keys_of : Option Bytes → Option ℕ
unfolding digits_of
keys_of none = none
keys_of (some keys) = digits_of (behind_last key_id keys)

-- `head` is the line without the suffix for type 105.
unfoldable pub suffix_id : Bytes → Option ℕ
unfolding behind_last digits_id before_comma id_of keys_of
suffix_id head = keys_of (before_comma head)

-- The loop of fastFields: the fields so far, the current number and how many digits it has.
fields_loop : List ℕ → ℕ → ℕ → Bytes → Option (List ℕ)
fields_loop f cur digits [] = none
fields_loop f cur digits (c ∷ s) =
    let next = fields_loop f (cur * 10 + (c - 48)) (digits + 1) s in
    let more = fields_loop (f ++ cur ∷ []) 0 0 s in
    if is_digit c
    then if leb 18 digits then none else next
    else if c == b',' || c == b']'
    then if digits == 0 || leb 4 (length f)
      then none
      else if c == b']'
      then some (f ++ cur ∷ [])
      else more
    else none

-- The array of four is the list of the values read, with zeros behind it.
unfoldable pub fast_fields : Bytes → Option (List ℕ)
unfolding behind_first fields_loop
fast_fields line = elim (behind_first key_fields line) [
  | none ↦ none
  | some rest ↦ fields_loop [] 0 0 rest
]

numbers : List Json → Option (List ℕ)
numbers [] = some []
numbers (number n ∷ js) = elim (numbers js) [ none ↦ none | some ns ↦ some (n ∷ ns) ]
numbers (null_json ∷ js) = elim (numbers js) [ none ↦ none | some ns ↦ some (0 ∷ ns) ]
numbers (_ ∷ js) = none

unfoldable pub decode_fields : List Json → Option (List ℕ)
unfolding numbers
decode_fields [] = none
decode_fields (j ∷ js) = if ltb 4 (length (j ∷ js)) then none else numbers (j ∷ js)
