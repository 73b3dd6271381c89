-- ===== src/Logs/Nixlog/Reported.antt =====
-- Each operation keeps that a derivation named by a message was reported, or is being built.
mod Named
pub mod Noted
pub mod Run
use nix_repo_base.Base.{
  ℕ, zero, suc, ◌+◌, ◌%◌, ◌^◌, ◌≡◌, refl, ap, sym, ◌∙◌, Bool, true, false, not, ◌&&◌, ◌||◌, Option,
  none, some, List, [], ◌∷◌, ◌++◌, any, sort_by, ltb, ◌==◌, if◌then◌else◌, arith, Bool-cases, inl,
  inr,
}
use nix_repo_base.Base.Bytes.{Bytes, bytes_eq, is_some}
use nix_repo_base.Base.Regex.{submatch}
use nix_repo_base.Logs.Nixlog.Text.{re_cannot_build, re_hash_mismatch}
use nix_repo_base.Logs.Nixlog.{
  Text, Kind, build, substitute, wait, Activity, Open, Failure, Agg, Event, Action, start_action,
  stop_action, msg_action, result_action, other_action, at_id, put_id, drop_id, Summary,
}
use nix_repo_base.Logs.Nixlog.Processor.{
  Processor, new_processor, emit, kind_eq, span_of, open_span, note_active, on_start, hold_or_fail,
  settle, close_span, on_stop, failure_of, mark_failed, short, finish, acts, aborted_acts, values,
  emit_all,
}
use nix_repo_base.Logs.Nixlog.Messages.{
  blame, note_failure, note_first, on_failure, on_mismatch, on_cannot_build, on_error, on_not_busy,
  or_busy, on_msg, note_plan, mismatch_failure, build_failure, take_held, skipping, never_started,
  raw_or_msg, is_building,
}
use nix_repo_base.Logs.Nixlog.Accounts.{IsNew}

pub bytes_eq-eq : (s t : Text) → bytes_eq s t ≡ true → s ≡ t
unfolding bytes_eq
bytes_eq-eq [] [] h = refl
bytes_eq-eq [] (d ∷ t) h = cc
bytes_eq-eq (c ∷ s) [] h = cc
bytes_eq-eq (c ∷ s) (d ∷ t) h = ground (arith, bytes_eq-eq s t)

-- An activity reports a derivation if it has its path and failed.
abbrev pub reports : Text → Activity → Bool
reports path a = bytes_eq a.path path && is_some a.failed

module _ {ℓ} {V : Type ℓ} (q : V → Bool) where
  any-put_id_new :
      (k : ℕ) (v : V) (m : List (ℕ × V))
      → at_id k m ≡ none
      → any (λ e. q e.1) (put_id k v m) ≡ (any (λ e. q e.1) m || q v)
  unfolding at_id put_id
  any-put_id_new k v [] h = ground arith
  any-put_id_new k v ((j, u) ∷ m) h = ground (arith, any-put_id_new k v m)

  any-put_id_old :
      (k : ℕ) (u v : V) (m : List (ℕ × V))
      → at_id k m ≡ some u
      → q u ≡ q v
      → any (λ e. q e.1) (put_id k v m) ≡ any (λ e. q e.1) m
  unfolding at_id put_id
  any-put_id_old k u v [] h e = cc
  any-put_id_old k u v ((j, x) ∷ m) h e = ground (arith, any-put_id_old k u v m)

  any-drop_id :
      (k : ℕ) (u : V) (m : List (ℕ × V))
      → at_id k m ≡ some u
      → any (λ e. q e.1) m ≡ (q u || any (λ e. q e.1) (drop_id k m))
  unfolding at_id drop_id
  any-drop_id k u [] h = cc
  any-drop_id k u ((j, x) ∷ m) h = ground (arith, any-drop_id k u m)

any-append {ℓ} :
    {A : Type ℓ} (q : A → Bool) (xs ys : List A) → any q (xs ++ ys) ≡ (any q xs || any q ys)
any-append q [] ys = refl
any-append q (x ∷ xs) ys = ground (arith, any-append q xs ys)

-- What the search for a held activity finds has the path searched for.
abbrev FoundHere : Text → Option (Open × List Open) → Type 0
FoundHere path none = Unit
FoundHere path (some (g, gs)) = bytes_eq g.act.path path ≡ true

skipping-FoundHere :
    (path : Text) (h : Open) (r : Option (Open × List Open))
    → FoundHere path r
    → FoundHere path (skipping h r)
skipping-FoundHere path h none f = tt
skipping-FoundHere path h (some (g, gs)) f = f

take_held-FoundHere : (path : Text) (hs : List Open) → FoundHere path (take_held path hs)
unfolding take_held
take_held-FoundHere path [] = tt
take_held-FoundHere path (h ∷ hs) = elim (Bool-cases (bytes_eq h.act.path path)) [
  | inl found ↦ rw found found
  | inr other ↦
      rw other (skipping-FoundHere path h (take_held path hs) (take_held-FoundHere path hs))
]

module _ (path : Text) where
  abbrev is_open_build : Open → Bool
  is_open_build o = kind_eq o.act.kind build && bytes_eq o.act.path path

  -- If a message named the derivation, it was reported, or it is being built.
  abbrev pub IsReported : Processor → Type 0
  IsReported p =
      is_some (failure_of path p.failed) ≡ true
      → any (reports path) p.emitted || any (λ e. is_open_build e.1) p.active ≡ true

  emit-IsReported : (a : Activity) (p : Processor) → IsReported p → IsReported (emit a p)
  emit-IsReported a p v h = ground (arith, v h, any-append (reports path) p.emitted (a ∷ []))

  open_span-IsReported :
      (id : ℕ) (p : Processor) (r : Option Activity)
      → IsNew id p r
      → IsReported p
      → IsReported (open_span id p r)
  unfolding open_span
  open_span-IsReported id p none new v h = v h
  open_span-IsReported id p (some a) new v h = ground (
    arith,
    v h,
    any-put_id_new is_open_build id (record { act = a; order = (p.seq + 1) % 2 ^ 64 }) p.active new,
  )

  -- The activity leaves the open ones, and settles.
  hold_or_fail-IsReported :
      (id : ℕ) (o o' : Open) (p : Processor) (r : Option Failure)
      → at_id id p.active ≡ some o
      → o'.act.path ≡ o.act.path
      → failure_of o'.act.path p.failed ≡ r
      → IsReported p
      → IsReported (hold_or_fail o' (record p { active = drop_id id p.active }) r)
  unfolding hold_or_fail
  hold_or_fail-IsReported id o o' p none here same found v h = ground (
    arith,
    v h,
    any-drop_id is_open_build id o p.active here,
    ap (λ s. bytes_eq s path) same,
    found,
    λ (e : bytes_eq o'.act.path path ≡ true).
        ap (λ s. failure_of s p.failed) (bytes_eq-eq o'.act.path path e),
  )
  hold_or_fail-IsReported id o o' p (some f) here same found v h = ground (
    arith,
    v h,
    any-drop_id is_open_build id o p.active here,
    any-append (reports path) p.emitted (mark_failed f o'.act ∷ []),
    ap (λ s. bytes_eq s path) same,
  )

  settle-IsReported :
      (k : Kind) (min_span id : ℕ) (o o' : Open) (p : Processor)
      → at_id id p.active ≡ some o
      → o.act.kind ≡ k
      → o'.act.path ≡ o.act.path
      → IsReported p
      → IsReported (settle k min_span o' (record p { active = drop_id id p.active }))
  unfolding settle
  settle-IsReported build min_span id o o' p here kind same v h =
      hold_or_fail-IsReported id o o' p (failure_of o'.act.path p.failed) here same refl v h
  settle-IsReported substitute min_span id o o' p here kind same v h = ground (
    arith,
    v h,
    any-drop_id is_open_build id o p.active here,
    any-append (reports path) p.emitted (short min_span o'.act ∷ []),
    ap (λ x. kind_eq x build) kind,
  )
  settle-IsReported wait min_span id o o' p here kind same v h = ground (
    arith,
    v h,
    any-drop_id is_open_build id o p.active here,
    any-append (reports path) p.emitted (o'.act ∷ []),
    ap (λ x. kind_eq x build) kind,
  )

  close_span-IsReported :
      (min_span id now : ℕ) (p : Processor) (r : Option Open)
      → at_id id p.active ≡ r
      → IsReported p
      → IsReported (close_span min_span id now p r)
  unfolding close_span
  close_span-IsReported min_span id now p none here v h = v h
  close_span-IsReported min_span id now p (some o) here v h =
      settle-IsReported o.act.kind min_span id o (record o { act = record o.act { end_at = now } })
        p here refl refl v h

  blame-IsReported :
      (named : Text) (f : Failure) (now : ℕ) (p : Processor) (r : Option (Open × List Open))
      → FoundHere named r
      → IsReported p
      → IsReported (blame named f now (note_failure named f p) r)
  unfolding blame failure_of
  blame-IsReported named f now p none found v h = ground (
    arith,
    v,
    λ (e : bytes_eq named path ≡ true). ap (λ s. is_building s p.active) (bytes_eq-eq named path e),
    any-append (reports path) p.emitted (mark_failed f (never_started named now) ∷ []),
  )
  blame-IsReported named f now p (some (g, gs)) found v h = ground (
    arith,
    v,
    ap (λ s. bytes_eq s path) (bytes_eq-eq g.act.path named found),
    any-append (reports path) p.emitted (mark_failed f g.act ∷ []),
  )

  on_failure-IsReported :
      (named : Text) (f : Failure) (now : ℕ) (p : Processor)
      → IsReported p
      → IsReported (on_failure named f now p)
  unfolding on_failure
  on_failure-IsReported named f now p v = elim (Bool-cases (is_some (failure_of named p.failed))) [
    | inl known ↦ rw known v
    | inr new ↦ rw new (
        blame-IsReported named f now p (take_held named p.held) (take_held-FoundHere named p.held)
          v)
  ]

  on_error-IsReported :
      (said clean : Text) (now : ℕ) (p : Processor)
      → IsReported p
      → IsReported (on_error said clean now p)
  unfolding on_error on_cannot_build on_mismatch
  on_error-IsReported said clean now p v =
      by_build (note_first clean p) (submatch re_cannot_build said) (first v)
    where
      first : IsReported p → IsReported (note_first clean p)
      first u h = ground (arith, u)

      by_mismatch :
          (q : Processor) (r : Option (ℕ → Text))
          → IsReported q
          → IsReported (on_mismatch said clean now q r)
      by_mismatch q (some g) u h = on_failure-IsReported (g 1) (mismatch_failure said) now q u h
      by_mismatch q none u h = ground (arith, u)

      by_build :
          (q : Processor) (r : Option (ℕ → Text))
          → IsReported q
          → IsReported (on_cannot_build said clean now q r)
      by_build q (some g) u = on_failure-IsReported (g 1) (build_failure said) now q u
      by_build q none u = by_mismatch q (submatch re_hash_mismatch said) u
