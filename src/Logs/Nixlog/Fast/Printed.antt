-- ===== src/Logs/Nixlog/Fast/Printed.antt =====
-- A progress line as nix prints it is read back by the byte checks.
use native.Mathlib.Nat.{pow-le-pow_right, pow-suc}
use nix_repo_base.Base.{
  ℕ, ◌+◌, ◌-◌, ◌*◌, ◌%◌, ◌^◌, ◌≤◌, ◌<◌, ◌≡◌, refl, ap, ◌∙◌, true, none, some, List, [], ◌∷◌, ◌++◌,
  length, length-append, All, arith,
}
use mathlib.Core.List.{reverse-append, reverse-reverse, append_assoc}
use nix_repo_base.Base.Bytes.{Bytes, strip_prefix?}
use nix_repo_base.Base.Regex.{is_digit}
use nix_repo_base.Logs.Nixlog.Fast.{
  key_id, key_fields, prefix_result, suffix_105, behind_last, behind_first, digits_id, before_comma,
  comma_first, keys_of, digits_of, id_of, suffix_id, fields_loop, fast_fields,
}

-- A decimal numeral.
abbrev pub IsNumeral : ℕ → Bytes → Type 0
IsNumeral max ds = All (λ c. is_digit c ≡ true) ds × (1 ≤ length ds) × (length ds ≤ max)

-- What digits stand for, behind those already read.
unfoldable pub value_from : ℕ → Bytes → ℕ
value_from n [] = n
value_from n (c ∷ s) = value_from (n * 10 + (c - 48)) s

abbrev pub value : Bytes → ℕ
value ds = value_from 0 ds

-- The fields with commas between them and the bracket that ends them.
unfoldable pub print_fields : List Bytes → Bytes
print_fields [] = b']' ∷ []
print_fields (ds ∷ []) = ds ++ b']' ∷ []
print_fields (ds ∷ es ∷ fs) = ds ++ b',' ∷ print_fields (es ∷ fs)

-- The line without the suffix for its type, as nix prints it: the keys are in alphabetical order.
unfoldable pub print_head : List Bytes → Bytes → Bytes
unfolding print_fields
print_head fs id =
    prefix_result
    ++ (b',' ∷ (key_fields ++ (print_fields fs ++ b',' ∷ (key_id ++ (id ++ b',' ∷ [])))))

behind_last-digits : (ds : Bytes) → All (λ c. is_digit c ≡ true) ds → behind_last key_id ds ≡ none
unfolding behind_last strip_prefix?
behind_last-digits [] h = refl
behind_last-digits (c ∷ ds) h = ground (arith, behind_last-digits ds h.1)

behind_last-key :
    (ds : Bytes) → All (λ c. is_digit c ≡ true) ds → behind_last key_id (key_id ++ ds) ≡ some ds
unfolding behind_last strip_prefix?
behind_last-key ds h = rw (behind_last-digits ds h) refl

behind_last-append :
    (pre s r : Bytes) → behind_last key_id s ≡ some r → behind_last key_id (pre ++ s) ≡ some r
unfolding behind_last
behind_last-append [] s r h = h
behind_last-append (c ∷ pre) s r h = rw (behind_last-append pre s r h) refl

value_from-lt :
    (n : ℕ) (ds : Bytes)
    → All (λ c. is_digit c ≡ true) ds
    → value_from n ds < (n + 1) * 10 ^ length ds
unfolding value_from
value_from-lt n [] h = omega arith
value_from-lt n (c ∷ ds) h =
    let digit : c - 48 ≤ 9 = ground (arith, h.0) in
    let ih = value_from-lt (n * 10 + (c - 48)) ds h.1 in
    rw (pow-suc 10 (length ds)) (grind (arith, ih, digit))

value_from-le : (n : ℕ) (ds : Bytes) → n ≤ value_from n ds
unfolding value_from
value_from-le n [] = omega arith
value_from-le n (c ∷ ds) = omega (arith, value_from-le (n * 10 + (c - 48)) ds)

digits_id-value :
    (n : ℕ) (ds : Bytes)
    → All (λ c. is_digit c ≡ true) ds
    → value_from n ds < 2 ^ 64
    → digits_id n ds ≡ some (value_from n ds)
unfolding digits_id value_from
digits_id-value n [] h lt = refl
digits_id-value n (c ∷ ds) h lt =
    let le = value_from-le (n * 10 + (c - 48)) ds in
    let same : (n * 10 + (c - 48)) % 2 ^ 64 ≡ n * 10 + (c - 48) = omega (arith, le, lt) in
    rw (same, h.0) (digits_id-value (n * 10 + (c - 48)) ds h.1 lt)

fields_loop-digits :
    (f : List ℕ) (cur k : ℕ) (ds s : Bytes)
    → All (λ c. is_digit c ≡ true) ds
    → k + length ds ≤ 18
    → fields_loop f cur k (ds ++ s) ≡ fields_loop f (value_from cur ds) (k + length ds) s
unfolding fields_loop value_from
fields_loop-digits f cur k [] s h le = ap (λ n. fields_loop f cur n s) (omega arith)
fields_loop-digits f cur k (c ∷ ds) s h le =
    ground (arith, fields_loop-digits f (cur * 10 + (c - 48)) (k + 1) ds s h.1)

before_comma-comma : (s : Bytes) → before_comma (s ++ b',' ∷ []) ≡ some s
unfolding before_comma comma_first
before_comma-comma s = ap comma_first (reverse-append s (b',' ∷ [])) ∙ ap some (reverse-reverse s)

id_of-numeral : (ds : Bytes) → IsNumeral 19 ds → id_of ds ≡ some (value ds)
unfolding id_of
id_of-numeral [] h = absurd (omega (arith, h.1))
id_of-numeral (c ∷ ds) h =
    let small = value_from-lt 0 (c ∷ ds) h.0 in
    let pow : 10 ^ length (c ∷ ds) ≤ 10 ^ 19 = pow-le-pow_right (omega arith) h.2 in
    ground (arith, digits_id-value 0 (c ∷ ds) h.0 (omega (arith, small, pow)), h.2)

-- The values of the fields.
abbrev pub values_of : List Bytes → List ℕ
values_of [] = []
values_of (ds ∷ fs) = value ds ∷ values_of fs

fields_loop-comma :
    (f : List ℕ) (cur k : ℕ) (s : Bytes)
    → 1 ≤ k
    → length f + 1 ≤ 4
    → fields_loop f cur k (b',' ∷ s) ≡ fields_loop (f ++ cur ∷ []) 0 0 s
unfolding fields_loop
fields_loop-comma f cur k s some_digit room = ground arith

fields_loop-bracket :
    (f : List ℕ) (cur k : ℕ) (s : Bytes)
    → 1 ≤ k
    → length f + 1 ≤ 4
    → fields_loop f cur k (b']' ∷ s) ≡ some (f ++ cur ∷ [])
unfolding fields_loop
fields_loop-bracket f cur k s some_digit room = ground arith

fields_loop-print :
    (f : List ℕ) (ds : Bytes) (fs : List Bytes) (s : Bytes)
    → All (IsNumeral 18) (ds ∷ fs)
    → length f + length (ds ∷ fs) ≤ 4
    → fields_loop f 0 0 (print_fields (ds ∷ fs) ++ s) ≡ some (f ++ values_of (ds ∷ fs))
unfolding print_fields
fields_loop-print f ds [] s h le =
    ap (fields_loop f 0 0) (append_assoc ds (b']' ∷ []) s)
    ∙ fields_loop-digits f 0 0 ds (b']' ∷ s) h.0.0 (omega (arith, h.0.2))
    ∙ fields_loop-bracket f (value ds) (0 + length ds) s (omega (arith, h.0.1)) (omega (arith, le))
fields_loop-print f ds (es ∷ fs) s h le =
    ap (fields_loop f 0 0) (append_assoc ds (b',' ∷ print_fields (es ∷ fs)) s)
    ∙ fields_loop-digits f 0 0 ds (b',' ∷ print_fields (es ∷ fs) ++ s) h.0.0 (omega (arith, h.0.2))
    ∙ fields_loop-comma f (value ds) (0 + length ds) (print_fields (es ∷ fs) ++ s)
        (omega (arith, h.0.1)) (omega (arith, le))
    ∙ fields_loop-print (f ++ value ds ∷ []) es fs s h.1
        (omega (arith, le, length-append f (value ds ∷ [])))
    ∙ ap some (append_assoc f (value ds ∷ []) (values_of (es ∷ fs)))

-- The line up to the identifier.
abbrev until_id : List Bytes → Bytes → Bytes
until_id fs id =
    prefix_result ++ (b',' ∷ (key_fields ++ (print_fields fs ++ b',' ∷ (key_id ++ id))))

print_head-comma : (fs : List Bytes) (id : Bytes) → print_head fs id ≡ until_id fs id ++ b',' ∷ []
unfolding print_head
print_head-comma fs id = simp append_assoc

behind_last-until_id :
    (fs : List Bytes) (id : Bytes)
    → All (λ c. is_digit c ≡ true) id
    → behind_last key_id (until_id fs id) ≡ some id
behind_last-until_id fs id h =
    behind_last-append prefix_result
      (b',' ∷ (key_fields ++ (print_fields fs ++ b',' ∷ (key_id ++ id)))) id
      (behind_last-append (b',' ∷ key_fields) (print_fields fs ++ b',' ∷ (key_id ++ id)) id (
        behind_last-append (print_fields fs) (b',' ∷ (key_id ++ id)) id
          (behind_last-append (b',' ∷ []) (key_id ++ id) id (behind_last-key id h))))

pub suffix_id-print_head :
    (fs : List Bytes) (id : Bytes)
    → IsNumeral 19 id
    → suffix_id (print_head fs id) ≡ some (value id)
unfolding suffix_id keys_of digits_of
suffix_id-print_head fs id h =
    ap suffix_id (print_head-comma fs id)
    ∙ ap keys_of (before_comma-comma (until_id fs id))
    ∙ ap digits_of (behind_last-until_id fs id h.0)
    ∙ id_of-numeral id h

pub fast_fields-print_head :
    (ds : Bytes) (fs : List Bytes) (id : Bytes)
    → All (IsNumeral 18) (ds ∷ fs)
    → length (ds ∷ fs) ≤ 4
    → fast_fields (print_head (ds ∷ fs) id ++ suffix_105) ≡ some (values_of (ds ∷ fs))
unfolding fast_fields print_head behind_first strip_prefix?
fast_fields-print_head ds fs id h le =
    let behind = b',' ∷ (key_id ++ (id ++ b',' ∷ [])) in
    ap (fields_loop [] 0 0) (append_assoc (print_fields (ds ∷ fs)) behind suffix_105)
    ∙ fields_loop-print [] ds fs (behind ++ suffix_105) h (omega (arith, le))

-- The identifier and the values of a progress line are read as they were printed, if the identifier has
-- at most 19 digits, and there are one to four values of at most 18 digits.
pub read-print_head :
    (ds : Bytes) (fs : List Bytes) (id : Bytes)
    → IsNumeral 19 id
    → All (IsNumeral 18) (ds ∷ fs)
    → length (ds ∷ fs) ≤ 4
    → (suffix_id (print_head (ds ∷ fs) id) ≡ some (value id))
      × (fast_fields (print_head (ds ∷ fs) id ++ suffix_105) ≡ some (values_of (ds ∷ fs)))
read-print_head ds fs id h all four =
    (suffix_id-print_head (ds ∷ fs) id h, fast_fields-print_head ds fs id all four)
