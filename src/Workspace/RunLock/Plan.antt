-- ===== src/Workspace/RunLock/Plan.antt =====
-- rebuildlock.go, lockNameSafe to buildLockName and rebuildLockSteps: the lock files and the steps of a
-- verb. A name is its runes; the digest of a root and terminal, and filepath.Join, are parameters.
use mathlib.Core.Path.{subst}
use nix_repo_base.Base.{
  ℕ, String, ◌≡◌, refl, ap, sym, ◌∙◌, eq_iff, All-append, Bool, true, false, ◌&&◌, ◌||◌, Option,
  none, some, List, [], ◌∷◌, ◌++◌, map, mem, leb, ◌==◌, if◌then◌else◌, str_eq, Bool-cases, inl, inr,
  ◌≢◌, arith, All,
}
use nix_repo_base.Base.Bytes.{Bytes, ascii}
use nix_repo_base.Workspace.RunLock.{
  exclusive, probe, LockStep, Flock, Choice, begin, go_on, stop, die, holding, quiet, run_schedule,
}
use nix_repo_base.Workspace.RunLock.Exclusion.{Apart, WellPlanned}
use nix_repo_base.Workspace.RunLock.Exclusion.Schedule.{run_schedule-exclusive}

abbrev pub between : ℕ → ℕ → ℕ → Bool
between a b r = leb a r && leb r b

unfoldable pub is_safe : ℕ → Bool
is_safe r = between 97 122 r || between 65 90 r || between 48 57 r || r == 46 || r == 45 || r == 95

unfoldable pub lock_name_safe : Bytes → Bytes
unfolding is_safe
lock_name_safe [] = ascii "unknown"
lock_name_safe (r ∷ s) = map (λ c. if is_safe c then c else 95) (r ∷ s)

unfoldable pub apply_lock_name : Bytes → Bytes → Bytes
unfolding lock_name_safe
apply_lock_name terminal hostname =
    ascii "apply-"
    ++ lock_name_safe terminal
    ++ ascii "-"
    ++ lock_name_safe hostname
    ++ ascii ".lock"

unfoldable pub build_lock_name : (Bytes → Bytes → Bytes) → Bytes → Bytes → Bytes
build_lock_name digest root terminal = ascii "build-" ++ digest root terminal ++ ascii ".lock"

-- The verbs with a plan of their own.
unfoldable pub rebuild_lock_steps :
    (Bytes → String)
    → (Bytes → Bytes → Bytes)
    → String
    → Bytes
    → Bytes
    → Bytes
    → Option (List LockStep)
unfolding apply_lock_name build_lock_name
rebuild_lock_steps join digest verb root terminal hostname =
    let build = join (build_lock_name digest root terminal) in
    let apply = join (apply_lock_name terminal hostname) in
    if str_eq verb "apply"
    then some (
        record { key = "apply"; path = apply; mode = exclusive }
        ∷ record { key = "build"; path = build; mode = exclusive }
        ∷ [])
    else if str_eq verb "build"
    then some (
        record { key = "build"; path = build; mode = exclusive }
        ∷ record { key = "apply"; path = apply; mode = probe }
        ∷ [])
    else none

-- A file name without a separator: it stays in the lock directory.
abbrev pub IsSafe : Bytes → Type 0
IsSafe name = All (λ r. is_safe r ≡ true) name

mapped-IsSafe : (s : Bytes) → IsSafe (map (λ c. if is_safe c then c else 95) s)
unfolding is_safe
mapped-IsSafe [] = tt
mapped-IsSafe (c ∷ s) = (
  elim (Bool-cases (is_safe c)) [ inl safe ↦ rw safe safe | inr unsafe ↦ rw unsafe refl ],
  mapped-IsSafe s,
)

lock_name_safe-IsSafe : (s : Bytes) → IsSafe (lock_name_safe s)
unfolding lock_name_safe is_safe
lock_name_safe-IsSafe [] = (refl, (refl, (refl, (refl, (refl, (refl, (refl, tt)))))))
lock_name_safe-IsSafe (c ∷ s) = mapped-IsSafe (c ∷ s)

joined : (a b : Bytes) → IsSafe a → IsSafe b → IsSafe (a ++ b)
joined = All-append (λ r. is_safe r ≡ true)

-- The name of every terminal's lock on every host stays in the lock directory, whatever the terminal and
-- the host are called.
apply_lock_name-IsSafe : (terminal hostname : Bytes) → IsSafe (apply_lock_name terminal hostname)
unfolding apply_lock_name is_safe
apply_lock_name-IsSafe terminal hostname =
    let six : IsSafe (ascii "apply-") = (refl, (refl, (refl, (refl, (refl, (refl, tt)))))) in
    let suffix : IsSafe (ascii ".lock") = (refl, (refl, (refl, (refl, (refl, tt))))) in
    let t =
      joined (ascii "apply-") (lock_name_safe terminal) six (lock_name_safe-IsSafe terminal) in
    let dash = joined (ascii "apply-" ++ lock_name_safe terminal) (ascii "-") t (refl, tt) in
    let h =
      joined (ascii "apply-" ++ lock_name_safe terminal ++ ascii "-") (lock_name_safe hostname) dash
        (lock_name_safe-IsSafe hostname) in
    joined (ascii "apply-" ++ lock_name_safe terminal ++ ascii "-" ++ lock_name_safe hostname)
      (ascii ".lock") h suffix

abbrev pub first : Bytes → ℕ
first [] = 0
first (c ∷ s) = c

-- Names that begin with a letter and have no separator.
abbrev pub IsFileName : Bytes → Type 0
IsFileName name = (between 97 122 (first name) ≡ true) × IsSafe name

build_lock_name-IsSafe :
    (digest : Bytes → Bytes → Bytes) (root terminal : Bytes)
    → IsSafe (digest root terminal)
    → IsSafe (build_lock_name digest root terminal)
unfolding build_lock_name is_safe
build_lock_name-IsSafe digest root terminal safe =
    let six : IsSafe (ascii "build-") = (refl, (refl, (refl, (refl, (refl, (refl, tt)))))) in
    let suffix : IsSafe (ascii ".lock") = (refl, (refl, (refl, (refl, (refl, tt))))) in
    joined (ascii "build-" ++ digest root terminal) (ascii ".lock")
      (joined (ascii "build-") (digest root terminal) six safe) suffix

names_apart :
    (digest : Bytes → Bytes → Bytes) (root terminal hostname : Bytes)
    → apply_lock_name terminal hostname ≢ build_lock_name digest root terminal
unfolding apply_lock_name build_lock_name
names_apart digest root terminal hostname e = ground (arith, ap first e)

abbrev Planned : Option (List LockStep) → Type 0
Planned none = Unit
Planned (some steps) = Apart steps []

module _ (join : Bytes → String) (base : String → Bytes)
    (base-join : (n : Bytes) → IsFileName n → base (join n) ≡ n) (digest : Bytes → Bytes → Bytes)
    (digest-IsSafe : (root terminal : Bytes) → IsSafe (digest root terminal)) where
  apply_file :
      (terminal hostname : Bytes)
      → base (join (apply_lock_name terminal hostname)) ≡ apply_lock_name terminal hostname
  unfolding apply_lock_name
  apply_file terminal hostname =
      base-join (apply_lock_name terminal hostname) (refl, apply_lock_name-IsSafe terminal hostname)

  build_file :
      (root terminal : Bytes)
      → base (join (build_lock_name digest root terminal)) ≡ build_lock_name digest root terminal
  unfolding build_lock_name
  build_file root terminal =
      base-join (build_lock_name digest root terminal)
        (refl, build_lock_name-IsSafe digest root terminal (digest-IsSafe root terminal))

  files_apart :
      (root terminal hostname : Bytes)
      → str_eq
          (join (build_lock_name digest root terminal))
          (join (apply_lock_name terminal hostname))
        ≡ false
  files_apart root terminal hostname =
      elim (Bool-cases (
        str_eq (join (build_lock_name digest root terminal))
          (join (apply_lock_name terminal hostname)))) [
            | inl same ↦ absurd (
                names_apart digest root terminal hostname (
                  sym (apply_file terminal hostname)
                  ∙ sym (
                      ap base (
                        (eq_iff (join (build_lock_name digest root terminal))
                            (join (apply_lock_name terminal hostname))).0
                          same))
                  ∙ build_file root terminal))
            | inr apart ↦ apart
          ]

  rebuild_lock_steps-Planned :
      (verb : String) (root terminal hostname : Bytes)
      → Planned (rebuild_lock_steps join digest verb root terminal hostname)
  unfolding rebuild_lock_steps mem
  rebuild_lock_steps-Planned verb root terminal hostname = elim (Bool-cases (str_eq verb "apply")) [
    | inl apply ↦ rw apply tt
    | inr other ↦ elim (Bool-cases (str_eq verb "build")) [
      | inl build ↦
          rw (other, build) ((ap (λ b. b || false) (files_apart root terminal hostname)), tt)
      | inr neither ↦ rw (other, neither) tt
    ]
  ]

  rebuild_lock_steps-Apart :
      (verb : String) (root terminal hostname : Bytes) (steps : List LockStep)
      → rebuild_lock_steps join digest verb root terminal hostname ≡ some steps
      → Apart steps []
  rebuild_lock_steps-Apart verb root terminal hostname steps e =
      subst Planned e (rebuild_lock_steps-Planned verb root terminal hostname)

  -- Each run is an apply or a build, of some root and terminal.
  abbrev pub IsRebuilds : List (ℕ × Choice) → Type 0
  IsRebuilds [] = Unit
  IsRebuilds ((i, begin steps) ∷ cs) =
      ((verb : String) × (root : Bytes) × (terminal : Bytes) × (hostname : Bytes)
        × (rebuild_lock_steps join digest verb root terminal hostname ≡ some steps))
      × IsRebuilds cs
  IsRebuilds ((i, c) ∷ cs) = IsRebuilds cs

  pub rebuilds-WellPlanned : (cs : List (ℕ × Choice)) → IsRebuilds cs → WellPlanned cs
  rebuilds-WellPlanned [] h = tt
  rebuilds-WellPlanned ((i, begin steps) ∷ cs) h =
      let (verb, root, terminal, hostname, e) = h.0 in
      (rebuild_lock_steps-Apart verb root terminal hostname steps e, rebuilds-WellPlanned cs h.1)
  rebuilds-WellPlanned ((i, go_on) ∷ cs) h = rebuilds-WellPlanned cs h
  rebuilds-WellPlanned ((i, stop) ∷ cs) h = rebuilds-WellPlanned cs h
  rebuilds-WellPlanned ((i, die) ∷ cs) h = rebuilds-WellPlanned cs h

  -- Applies and builds of any roots and terminals run in any order of their steps, and any of them may
  -- stop or die: of two that are past their locks, neither holds a lock file that the other one holds.
  -- The digest of a root and terminal has letters, digits, dots, dashes and underscores alone, and the
  -- base name of a joined path is the name joined, for names of such characters that begin with a letter.
  pub rebuild_lock_steps-exclusive :
      (F : Flock) (cs : List (ℕ × Choice)) (i j : ℕ) (mine theirs : List String) (p : String)
      → IsRebuilds cs
      → i == j ≡ false
      → (run_schedule F cs (quiet F)).phase i ≡ holding mine
      → (run_schedule F cs (quiet F)).phase j ≡ holding theirs
      → mem p mine ≡ true
      → mem p theirs ≡ false
  rebuild_lock_steps-exclusive F cs i j mine theirs p h apart here there held =
      elim (Bool-cases (mem p theirs)) [
        | inr free ↦ free
        | inl both ↦
            let same : i ≡ j =
              run_schedule-exclusive F cs i j mine theirs p (rebuilds-WellPlanned cs h) here there
                held both in
            ground arith
      ]
