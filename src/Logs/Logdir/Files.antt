-- ===== src/Logs/Logdir/Files.antt =====
-- Lists of entries with distinct names: sorted, filtered, and with one removed.
use mathlib.Core.Option.{some-injective}
use nix_repo_base.Base.{
  ℕ, ◌+◌, ◌≡◌, refl, ap, sym, ◌∙◌, Bool, true, false, ◌||◌, Option, none, some, List, [], ◌∷◌, any,
  keep, total, All, sort_by, insert_by, if◌then◌else◌, arith, Bool-cases, inl, inr,
}
use nix_repo_base.Base.Bytes.{Bytes, bytes_eq, is_some, bytes_eq_refl, bytes_eq_sound, bytes_eq_iff}
use nix_repo_base.Logs.Logdir.{Entry, at_name, remove}
use nix_repo_base.Logs.Logdir.Names.{IsDirectory, holds_of}

pub at-insert_by :
    (less : Entry → Entry → Bool) (n : Bytes) (x : Entry) (xs : List Entry)
    → is_some (at_name n (insert_by less x xs)) ≡ (bytes_eq x.name n || is_some (at_name n xs))
unfolding insert_by at_name
at-insert_by less n x [] = ground arith
at-insert_by less n x (y ∷ ys) = ground (arith, at-insert_by less n x ys)

pub none_by : (o : Option Entry) → is_some o ≡ false → o ≡ none
none_by none h = refl
none_by (some e) h = cc

pub insert_by-IsDirectory :
    (less : Entry → Entry → Bool) (x : Entry) (xs : List Entry)
    → at_name x.name xs ≡ none
    → IsDirectory xs
    → IsDirectory (insert_by less x xs)
unfolding insert_by at_name
insert_by-IsDirectory less x [] h v = (refl, tt)
insert_by-IsDirectory less x (y ∷ ys) h v = elim (Bool-cases (less x y)) [
  | inl before ↦ rw before (h, v)
  | inr after ↦ rw after (
    none_by (at_name y.name (insert_by less x ys)) (
        ground (
          arith,
          at-insert_by less y.name x ys,
          h,
          ap is_some v.0,
          bytes_eq_iff x.name y.name,
          bytes_eq_iff y.name x.name,
        )),
    insert_by-IsDirectory less x ys (ground (arith, h)) v.1,
  )
]

pub sort_by-at :
    (less : Entry → Entry → Bool) (n : Bytes) (xs : List Entry)
    → is_some (at_name n (sort_by less xs)) ≡ is_some (at_name n xs)
unfolding sort_by at_name
sort_by-at less n [] = refl
sort_by-at less n (x ∷ xs) =
    ground (arith, at-insert_by less n x (sort_by less xs), sort_by-at less n xs)

pub sort_by-IsDirectory :
    (less : Entry → Entry → Bool) (xs : List Entry) → IsDirectory xs → IsDirectory (sort_by less xs)
unfolding sort_by
sort_by-IsDirectory less [] v = tt
sort_by-IsDirectory less (x ∷ xs) v =
    insert_by-IsDirectory less x (sort_by less xs)
      (none_by (at_name x.name (sort_by less xs)) (sort_by-at less x.name xs ∙ ap is_some v.0))
      (sort_by-IsDirectory less xs v.1)

pub keep-at :
    (p : Entry → Bool) (n : Bytes) (xs : List Entry)
    → at_name n xs ≡ none
    → at_name n (keep p xs) ≡ none
unfolding at_name
keep-at p n [] h = refl
keep-at p n (x ∷ xs) h = ground (arith, keep-at p n xs, h)

pub keep-IsDirectory :
    (p : Entry → Bool) (xs : List Entry) → IsDirectory xs → IsDirectory (keep p xs)
keep-IsDirectory p [] v = tt
keep-IsDirectory p (x ∷ xs) v = elim (Bool-cases (p x)) [
  | inl passes ↦ rw passes (keep-at p x.name xs v.0, keep-IsDirectory p xs v.1)
  | inr fails ↦ rw fails (keep-IsDirectory p xs v.1)
]

pub All-insert_by {κ} :
    (P : Entry → Type κ) (less : Entry → Entry → Bool) (x : Entry) (xs : List Entry)
    → P x
    → All P xs
    → All P (insert_by less x xs)
unfolding insert_by
All-insert_by P less x [] h v = (h, tt)
All-insert_by P less x (y ∷ ys) h v = elim (Bool-cases (less x y)) [
  | inl before ↦ rw before (h, v)
  | inr after ↦ rw after (v.0, All-insert_by P less x ys h v.1)
]

pub All-sort_by {κ} :
    (P : Entry → Type κ) (less : Entry → Entry → Bool) (xs : List Entry)
    → All P xs
    → All P (sort_by less xs)
unfolding sort_by
All-sort_by P less [] v = tt
All-sort_by P less (x ∷ xs) v =
    All-insert_by P less x (sort_by less xs) v.0 (All-sort_by P less xs v.1)

-- Each item that passes has what it has there.
pub All-keep {κ} :
    (P : Entry → Type κ) (p : Entry → Bool) (xs : List Entry)
    → ((e : Entry) → p e ≡ true → at_name e.name xs ≡ some e → P e)
    → IsDirectory xs
    → All P (keep p xs)
unfolding at_name
All-keep P p [] f v = tt
All-keep P p (x ∷ xs) f v =
    let rest =
      All-keep P p xs
        (λ e passes at. f e passes (
          ground (
            arith,
            at,
            v.0,
            λ (same : bytes_eq x.name e.name ≡ true).
                ap (λ m. at_name m xs) (bytes_eq_sound x.name e.name same),
          )))
        v.1 in
    elim (Bool-cases (p x)) [
      | inl passes ↦ rw passes (f x passes (rw (bytes_eq_refl x.name) refl), rest)
      | inr fails ↦ rw fails rest
    ]

pub remove_absent : (k : Bytes) (dir : List Entry) → at_name k dir ≡ none → remove k dir ≡ dir
unfolding at_name remove
remove_absent k [] h = refl
remove_absent k (e ∷ es) h = elim (Bool-cases (bytes_eq e.name k)) [
  | inl same ↦ ground (arith, h)
  | inr apart ↦ rw apart (ap (λ r. e ∷ r) (remove_absent k es (rw apart at h)))
]

pub total-remove :
    (w : Entry → ℕ) (k : Bytes) (dir : List Entry) (e : Entry)
    → IsDirectory dir
    → at_name k dir ≡ some e
    → total w (remove k dir) + w e ≡ total w dir
unfolding at_name remove
total-remove w k [] e v h = cc
total-remove w k (x ∷ es) e v h = elim (Bool-cases (bytes_eq x.name k)) [
  | inl same ↦ rw same (
      omega (
        arith,
        ap (total w) (
            remove_absent k es (ap (λ m. at_name m es) (sym (bytes_eq_sound x.name k same)) ∙ v.0)),
        ap w (some-injective x e (rw same at h)),
      ))
  | inr apart ↦ rw apart (omega (arith, total-remove w k es e v.1 (rw apart at h)))
]

pub All-away {κ λ'} :
    (P : Entry → Type κ) (Q : Entry → Type λ') (k : Bytes) (es : List Entry)
    → at_name k es ≡ none
    → ((f : Entry) → bytes_eq k f.name ≡ false → P f → Q f)
    → All P es
    → All Q es
unfolding at_name
All-away P Q k [] h f v = tt
All-away P Q k (e ∷ es) h f v = elim (Bool-cases (bytes_eq e.name k)) [
  | inl same ↦ ground (arith, h)
  | inr apart ↦ (
    f e (ground (arith, apart, bytes_eq_iff e.name k, bytes_eq_iff k e.name)) v.0,
    All-away P Q k es (rw apart at h) f v.1,
  )
]

pub none_left :
    (p : Entry → Bool) (dir : List Entry)
    → IsDirectory dir
    → ((n : Bytes) → holds_of p (at_name n dir) ≡ false)
    → any p dir ≡ false
unfolding at_name
none_left p [] v h = refl
none_left p (e ∷ es) v h =
    let mine = h e.name in
    let rest = none_left p es v.1 (λ n. ground (
      arith,
      h n,
      ap (holds_of p) v.0,
      λ (same : bytes_eq e.name n ≡ true).
          ap (λ m. holds_of p (at_name m es)) (bytes_eq_sound e.name n same),
    )) in
    ground (
      arith,
      rest,
      ap (λ b. holds_of p (if b then some e else at_name e.name es)) (bytes_eq_refl e.name),
      mine,
    )
