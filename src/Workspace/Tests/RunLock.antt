-- ===== src/Workspace/Tests/RunLock.antt =====
-- Two rebuilds of one terminal, a build and an apply, under a lock table for two processes.
use Prim.Native.Char.{Char, char, code, nul}
use Prim.Native.Nat.{Ordering, compare}
use mathlib.Core.List.{append-nil, append_assoc}
use mathlib.Core.Option.{some-injective}
use nix_repo_base.Base.{
  ℕ, ◌-◌, String, ◌≡◌, refl, ap, sym, ◌∙◌, Bool, true, false, not, ◌&&◌, Option, none, some, List,
  [], ◌∷◌, ◌++◌, mem, ltb, ◌==◌, if◌then◌else◌, str_eq, arith, Bool-cases, inl, inr,
}
use nix_repo_base.Base.Bytes.{Bytes, ascii, bytes_eq}
use nix_repo_base.Workspace.RunLock.{
  LockMode, exclusive, LockStep, conflicts, Flock, waiting, holding, Choice, begin, go_on, quiet,
  run_schedule,
}
use nix_repo_base.Workspace.RunLock.Plan.{
  rebuild_lock_steps, build_lock_name, apply_lock_name, IsRebuilds, rebuilds-WellPlanned,
  rebuild_lock_steps-exclusive, is_safe, IsSafe, IsFileName,
}
use nix_repo_base.Workspace.RunLock.Exclusion.Schedule.{run_schedule-waits_empty}
use nix_repo_base.Workspace.RunLock.Attempt.{
  Attempt, busy, attempt_locks, up_to, next_wait, InTime, next_wait-InTime,
}

abbrev Table : Type 0
Table = ℕ → String → Option LockMode

-- Processes 0 and 1 alone take locks.
abbrev table_holds : Table → ℕ → String → Option LockMode
table_holds k j q = if ltb j 2 then k j q else none

abbrev table_set : ℕ → String → Option LockMode → Table → Table
table_set i p m k j q = if i == j && str_eq p q then m else k j q

abbrev table_acquire : ℕ → String → LockMode → Table → Option Table
table_acquire i p m k =
    if ltb i 2 && not (conflicts m (k (1 - i) p)) then some (table_set i p (some m) k) else none

given : (b : Bool) (t k' : Table) → (if b then some t else none) ≡ some k' → (b ≡ true) × (t ≡ k')
given true t k' e = (refl, some-injective t k' e)
given false t k' e = cc

set_holds :
    (i : ℕ) (p : String) (m : LockMode) (k : Table) (b : Bool) (j : ℕ) (q : String)
    → ltb i 2 && b ≡ true
    → table_holds (table_set i p (some m) k) j q
      ≡ (if i == j && str_eq p q then some m else table_holds k j q)
set_holds i p m k b j q h = ground arith

other : (i j : ℕ) → i == j ≡ false → ltb j 2 ≡ true → ltb i 2 ≡ true → j ≡ 1 - i
other i j apart small here = ground arith

alone_or_free :
    (i j : ℕ) (p : String) (m : LockMode) (k : Table)
    → i == j ≡ false
    → ltb i 2 && not (conflicts m (k (1 - i) p)) ≡ true
    → conflicts m (table_holds k j p) ≡ false
alone_or_free i j p m k apart h = elim (Bool-cases (ltb j 2)) [
  | inl small ↦
      rw small (ap (λ x. conflicts m (k x p)) (other i j apart small (ground arith)) ∙ ground arith)
  | inr large ↦ rw large refl
]

two_runs : Flock
two_runs = record {
  Kernel = Table;
  free = λ i q. none;
  holds = table_holds;
  acquire = table_acquire;
  release = λ i p k. table_set i p none k;
  free_holds = λ i p. ground arith;
  acquire_holds = λ i p m k k' e j q.
      let got =
        given (ltb i 2 && not (conflicts m (k (1 - i) p))) (table_set i p (some m) k) k' e in
      sym (ap (λ t. table_holds t j q) (got.1))
      ∙ set_holds i p m k (not (conflicts m (k (1 - i) p))) j q (got.0);
  acquire_free = λ i p m k k' e j apart.
      alone_or_free i j p m k apart
        ((given (ltb i 2 && not (conflicts m (k (1 - i) p))) (table_set i p (some m) k) k' e).0);
  release_holds = λ i p k j q. ground arith;
}

-- The lock directory is `/l`; a name's runes are below 55296.
scalar : (n : ℕ) (o : Ordering) → compare n 55296 ≡ o → Char
scalar n Ordering.lt e = char n (rw e tt)
scalar n _ e = nul

rune : ℕ → Char
unfolding scalar
rune n = scalar n (compare n 55296) refl

text : Bytes → String
unfolding rune
text [] = String.[]
text (c ∷ s) = String.◌∷◌ (rune c) (text s)

abbrev path_of : Bytes → String
unfolding text
path_of name = String.◌∷◌ "/" (String.◌∷◌ "l" (String.◌∷◌ "/" (text name)))

runes : String → Bytes
runes String.[] = []
runes (String.◌∷◌ c s) = code c ∷ runes s

-- What follows the last separator.
after_slash : Bytes → Bytes → Bytes
after_slash acc [] = acc
after_slash acc (c ∷ s) = if c == 47 then after_slash [] s else after_slash (acc ++ c ∷ []) s

abbrev name_of : String → Bytes
unfolding runes after_slash
name_of path = after_slash [] (runes path)

code-scalar :
    (n : ℕ) (o : Ordering) (e : compare n 55296 ≡ o) → o ≡ Ordering.lt → code (scalar n o e) ≡ n
unfolding scalar
code-scalar n Ordering.lt e h = refl
code-scalar n Ordering.eq e h = cc
code-scalar n Ordering.gt e h = cc

below : (n : ℕ) → is_safe n ≡ true → (compare n 55296 ≡ Ordering.lt) × (n == 47 ≡ false)
unfolding is_safe
below n h = (ground arith, ground arith)

after_slash-safe :
    (name acc : Bytes) → IsSafe name → after_slash acc (runes (text name)) ≡ acc ++ name
unfolding after_slash runes text rune
after_slash-safe [] acc h = sym (append-nil acc)
after_slash-safe (c ∷ s) acc h =
    let (small, apart) = below c h.0 in
    let same = code-scalar c (compare c 55296) refl small in
    rw (same, apart) (after_slash-safe s (acc ++ c ∷ []) h.1 ∙ append_assoc acc (c ∷ []) s)

name_of-path : (name : Bytes) → IsFileName name → name_of (path_of name) ≡ name
unfolding after_slash runes text
name_of-path name h = after_slash-safe name [] h.1

-- Twelve digits of a digest, of two terminals.
abbrev digest : Bytes → Bytes → Bytes
digest root terminal =
    if bytes_eq terminal (ascii "t") then ascii "5e1f03c9a27b" else ascii "0ab3d9e6617c"

digest-IsSafe : (root terminal : Bytes) → IsSafe (digest root terminal)
unfolding is_safe
digest-IsSafe root terminal = elim (Bool-cases (bytes_eq terminal (ascii "t"))) [
  | inl same ↦ rw same (
    refl,
    (refl, (refl, (refl, (refl, (refl, (refl, (refl, (refl, (refl, (refl, (refl, tt))))))))))),
  )
  | inr other' ↦ rw other' (
    refl,
    (refl, (refl, (refl, (refl, (refl, (refl, (refl, (refl, (refl, (refl, (refl, tt))))))))))),
  )
]

abbrev steps_of : String → Bytes → List LockStep
unfolding rebuild_lock_steps text bytes_eq
steps_of verb terminal =
    elim (rebuild_lock_steps path_of digest verb (ascii "r") terminal (ascii "h")) [
      | none ↦ []
      | some steps ↦ steps
    ]

-- The build takes its lock, so that the apply has to give its own back before it waits; only then does
-- the build get past the other lock.
abbrev contended : List (ℕ × Choice)
contended =
    (1, begin (steps_of "apply" (ascii "t")))
    ∷ (0, begin (steps_of "build" (ascii "t")))
    ∷ (1, go_on)
    ∷ (0, go_on)
    ∷ (1, go_on)
    ∷ (1, go_on)
    ∷ (1, go_on)
    ∷ (0, go_on)
    ∷ (0, go_on)
    ∷ (0, go_on)
    ∷ []

-- A build and an apply of two terminals go on beside each other.
abbrev beside : List (ℕ × Choice)
beside =
    (0, begin (steps_of "build" (ascii "t")))
    ∷ (1, begin (steps_of "apply" (ascii "u")))
    ∷ (0, go_on)
    ∷ (1, go_on)
    ∷ (0, go_on)
    ∷ (1, go_on)
    ∷ (0, go_on)
    ∷ (1, go_on)
    ∷ (0, go_on)
    ∷ []

abbrev build_file : Bytes → String
build_file terminal = path_of (build_lock_name digest (ascii "r") terminal)

abbrev apply_file : Bytes → String
apply_file terminal = path_of (apply_lock_name terminal (ascii "h"))

end_of_apply :
    (run_schedule two_runs contended (quiet two_runs)).phase 1
    ≡ waiting (steps_of "apply" (ascii "t"))
unfolding run_schedule two_runs steps_of text
end_of_apply = refl

build_beside :
    (run_schedule two_runs beside (quiet two_runs)).phase 0 ≡ holding (build_file (ascii "t") ∷ [])
unfolding run_schedule two_runs steps_of text bytes_eq
build_beside = refl

apply_beside :
    (run_schedule two_runs beside (quiet two_runs)).phase 1
    ≡ holding (apply_file (ascii "u") ∷ build_file (ascii "u") ∷ [])
unfolding run_schedule two_runs steps_of text bytes_eq
apply_beside = refl

contended-IsRebuilds : IsRebuilds path_of name_of name_of-path digest digest-IsSafe contended
unfolding steps_of text
contended-IsRebuilds = (
  ("apply", ascii "r", ascii "t", ascii "h", refl),
  (("build", ascii "r", ascii "t", ascii "h", refl), tt),
)

beside-IsRebuilds : IsRebuilds path_of name_of name_of-path digest digest-IsSafe beside
unfolding steps_of text
beside-IsRebuilds = (
  ("build", ascii "r", ascii "t", ascii "h", refl),
  (("apply", ascii "r", ascii "u", ascii "h", refl), tt),
)

rebuild_lock_steps-exclusive_example :
    mem (build_file (ascii "t")) (apply_file (ascii "u") ∷ build_file (ascii "u") ∷ []) ≡ false
unfolding mem steps_of text
rebuild_lock_steps-exclusive_example =
    rebuild_lock_steps-exclusive path_of name_of name_of-path digest digest-IsSafe two_runs beside 0
      1 (build_file (ascii "t") ∷ []) (apply_file (ascii "u") ∷ build_file (ascii "u") ∷ [])
      (build_file (ascii "t")) beside-IsRebuilds refl build_beside apply_beside refl

run_schedule-waits_empty_example :
    two_runs.holds
      ((run_schedule two_runs contended (quiet two_runs)).kernel)
      1
      (apply_file (ascii "t"))
    ≡ none
run_schedule-waits_empty_example =
    run_schedule-waits_empty two_runs contended 1 (steps_of "apply" (ascii "t"))
      (apply_file (ascii "t"))
      (rebuilds-WellPlanned path_of name_of name_of-path digest digest-IsSafe contended
        contended-IsRebuilds)
      end_of_apply

abbrev apply_steps : List LockStep
apply_steps = steps_of "apply" (ascii "t")

-- Another process builds the same terminal: the second lock of the apply is busy.
abbrev building : two_runs.Kernel
building =
    (run_schedule two_runs ((0, begin (steps_of "build" (ascii "t"))) ∷ (0, go_on) ∷ [])
      (quiet two_runs)).kernel

abbrev attempted_apply : Attempt × two_runs.Kernel
attempted_apply = attempt_locks two_runs 1 apply_steps [] building

attempt_is_busy :
    attempted_apply.0
    ≡ busy (record { key = "build"; path = build_file (ascii "t"); mode = exclusive })
unfolding attempt_locks two_runs run_schedule steps_of text bytes_eq
attempt_is_busy = refl

next_wait-InTime_example : InTime 200 (up_to 1000) 900 (next_wait 200 (up_to 1000) 900)
next_wait-InTime_example = next_wait-InTime 200 (up_to 1000) 900 (ground arith)
