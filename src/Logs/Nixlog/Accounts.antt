-- ===== src/Logs/Nixlog/Accounts.antt =====
-- What is emitted, held or active is counted alike before and after each operation of the processor.
pub mod Run
use nix_repo_base.Base.{
  ℕ, ◌+◌, ◌%◌, ◌^◌, ◌≡◌, refl, ap, sym, ◌∙◌, Bool, true, false, not, ◌&&◌, ◌||◌, Option, none, some,
  List, [], ◌∷◌, ◌++◌, total, total-append, total-sort_by, sort_by, ltb, ◌==◌, if◌then◌else◌, arith,
  Bool-cases, inl, inr,
}
use nix_repo_base.Base.Bytes.{Bytes, bytes_eq}
use nix_repo_base.Logs.Nixlog.{
  Text, Kind, build, substitute, wait, Activity, Open, Event, start_action, Failure, Agg, Summary,
  at_id, put_id, drop_id,
}
use nix_repo_base.Logs.Nixlog.Ids.{total_values, total-put_id_new, total-put_id_old, total-drop_id}
use nix_repo_base.Logs.Nixlog.Processor.{
  Processor, new_processor, emit, mark_failed, failure_of, span_of, open_span, on_start, settle,
  on_stop, close_span, hold_or_fail, short, finish, acts, aborted_acts, values, emit_all,
  note_active, is_open_substitute,
}
use nix_repo_base.Base.Regex.{submatch}
use nix_repo_base.Logs.Nixlog.Text.{re_cannot_build, re_hash_mismatch, re_plan_build, re_plan_fetch}
use nix_repo_base.Logs.Nixlog.Messages.{
  take_held, skipping, never_started, blame, note_failure, on_failure, on_error, on_cannot_build,
  on_mismatch, note_first, mismatch_failure, build_failure, note_plan, or_busy, on_not_busy, on_msg,
}
use nix_repo_base.Logs.Nixlog.Lines.{
  fold, fold_into, fold_bytes, or_id, nth_or_zero, fold_decoded, on_result, on_action, on_decoded,
  on_quick, on_line, quick, Quick, skip, quick_fold, decode_it, run_lines, one_folded, counted,
}

-- An activity that starts has an identifier that no open one has.
abbrev pub IsNew : ℕ → Processor → Option Activity → Type 0
IsNew id p none = Unit
IsNew id p (some a) = at_id id p.active ≡ none

pub note_active-IsNew :
    (typ now id : ℕ) (p : Processor) (r : Option Activity)
    → IsNew id p r
    → IsNew id (note_active typ now p) r
note_active-IsNew typ now id p none new = tt
note_active-IsNew typ now id p (some a) new = ground arith

pub counted-IsNew :
    (f : Summary → Summary) (id : ℕ) (p : Processor) (r : Option Activity)
    → IsNew id p r
    → IsNew id (counted f p) r
counted-IsNew f id p none new = tt
counted-IsNew f id p (some a) new = new

module _ (w : Kind → Text → ℕ → ℕ) where
  -- What is counted of an activity, if it was started.
  abbrev pub weight : Activity → ℕ
  weight a = if a.instant then 0 else w a.kind a.path a.start

  abbrev pub weight_if : Option Activity → ℕ
  weight_if none = 0
  weight_if (some a) = weight a

  abbrev weight_open : Open → ℕ
  weight_open o = weight o.act

  -- Emitted, held, or active.
  abbrev accounted : Processor → ℕ
  accounted p =
      total weight p.emitted + total weight_open p.held + total_values weight_open p.active

  accounted-emit : (a : Activity) (p : Processor) → accounted (emit a p) ≡ accounted p + weight a
  accounted-emit a p = omega (arith, total-append weight p.emitted (a ∷ []))

  accounted-hold_or_fail :
      (o : Open) (p : Processor) (r : Option Failure)
      → accounted (hold_or_fail o p r) ≡ accounted p + weight_open o
  unfolding hold_or_fail
  accounted-hold_or_fail o p none = omega (arith, total-append weight_open p.held (o ∷ []))
  accounted-hold_or_fail o p (some f) = accounted-emit (mark_failed f o.act) p

  accounted-settle :
      (k : Kind) (min_span : ℕ) (o : Open) (p : Processor)
      → accounted (settle k min_span o p) ≡ accounted p + weight_open o
  unfolding settle
  accounted-settle build min_span o p = accounted-hold_or_fail o p (failure_of o.act.path p.failed)
  accounted-settle substitute min_span o p = accounted-emit (short min_span o.act) p
  accounted-settle wait min_span o p = accounted-emit o.act p

  accounted-close_span :
      (min_span id now : ℕ) (p : Processor) (r : Option Open)
      → at_id id p.active ≡ r
      → accounted (close_span min_span id now p r) ≡ accounted p
  unfolding close_span
  accounted-close_span min_span id now p none h = refl
  accounted-close_span min_span id now p (some o) h = omega (
    arith,
    accounted-settle o.act.kind min_span (record o { act = record o.act { end_at = now } })
        (record p { active = drop_id id p.active }),
    total-drop_id weight_open id o p.active h,
  )

  accounted-open_span :
      (id : ℕ) (p : Processor) (r : Option Activity)
      → IsNew id p r
      → accounted (open_span id p r) ≡ accounted p + weight_if r
  unfolding open_span
  accounted-open_span id p none new = omega arith
  accounted-open_span id p (some a) new = omega (
    arith,
    total-put_id_new weight_open id (record { act = a; order = (p.seq + 1) % 2 ^ 64 }) p.active new,
  )

  abbrev taken : Option (Open × List Open) → List Open → ℕ
  taken none hs = total weight_open hs
  taken (some (g, gs)) hs = weight_open g + total weight_open gs

  taken-skipping :
      (h : Open) (hs : List Open) (r : Option (Open × List Open))
      → taken r hs ≡ total weight_open hs
      → taken (skipping h r) (h ∷ hs) ≡ total weight_open (h ∷ hs)
  taken-skipping h hs none e = refl
  taken-skipping h hs (some (g, gs)) e = omega (arith, e)

  taken-take_held :
      (path : Text) (hs : List Open) → taken (take_held path hs) hs ≡ total weight_open hs
  unfolding take_held
  taken-take_held path [] = refl
  taken-take_held path (h ∷ hs) = elim (Bool-cases (bytes_eq h.act.path path)) [
    | inl found ↦ rw found refl
    | inr other ↦ rw other (taken-skipping h hs (take_held path hs) (taken-take_held path hs))
  ]

  accounted-blame :
      (path : Text) (f : Failure) (now : ℕ) (p : Processor) (r : Option (Open × List Open))
      → take_held path p.held ≡ r
      → accounted (blame path f now p r) ≡ accounted p
  unfolding blame
  accounted-blame path f now p none e =
      ground (arith, accounted-emit (mark_failed f (never_started path now)) p)
  accounted-blame path f now p (some (h, hs)) e = omega (
    arith,
    accounted-emit (mark_failed f h.act) (record p { held = hs }),
    ap (λ r. taken r p.held) e,
    taken-take_held path p.held,
  )

  accounted-on_failure :
      (path : Text) (f : Failure) (now : ℕ) (p : Processor)
      → accounted (on_failure path f now p) ≡ accounted p
  unfolding on_failure
  accounted-on_failure path f now p =
      ground
        (arith, accounted-blame path f now (note_failure path f p) (take_held path p.held) refl)

  accounted-on_error :
      (said clean : Text) (now : ℕ) (p : Processor)
      → accounted (on_error said clean now p) ≡ accounted p
  unfolding on_error on_cannot_build on_mismatch
  accounted-on_error said clean now p =
      by_build (note_first clean p) (submatch re_cannot_build said) ∙ ground arith
    where
      by_mismatch :
          (q : Processor) (r : Option (ℕ → Text))
          → accounted (on_mismatch said clean now q r) ≡ accounted q
      by_mismatch q (some g) = accounted-on_failure (g 1) (mismatch_failure said) now q
      by_mismatch q none = ground arith

      by_build :
          (q : Processor) (r : Option (ℕ → Text))
          → accounted (on_cannot_build said clean now q r) ≡ accounted q
      by_build q (some g) = accounted-on_failure (g 1) (build_failure said) now q
      by_build q none = by_mismatch q (submatch re_hash_mismatch said)

  accounted-note_plan :
      (p : Processor) (r t : Option (ℕ → Text)) → accounted (note_plan p r t) ≡ accounted p
  accounted-note_plan p (some g) t = refl
  accounted-note_plan p none (some g) = refl
  accounted-note_plan p none none = refl

  accounted-or_busy :
      (level : ℕ) (said clean : Text) (now : ℕ) (p : Processor) (r : Option (ℕ → Text))
      → accounted (or_busy level said clean now p r) ≡ accounted p
  unfolding or_busy on_not_busy
  accounted-or_busy level said clean now p (some g) = ground arith
  accounted-or_busy level said clean now p none = ground (
    arith,
    accounted-on_error said clean now p,
    accounted-note_plan p (submatch re_plan_build said) (submatch re_plan_fetch said),
  )

  accounted-fold_bytes :
      (id done : ℕ) (p : Processor) (r : Option Open)
      → at_id id p.active ≡ r
      → accounted (fold_bytes id done p r) ≡ accounted p
  unfolding fold_bytes
  accounted-fold_bytes id done p none h = refl
  accounted-fold_bytes id done p (some o) h = ground (
    arith,
    total-put_id_old weight_open id o (record o { act = record o.act { bytes = some done } })
        p.active h,
  )

  accounted-fold : (id : ℕ) (f : List ℕ) (p : Processor) → accounted (fold id f p) ≡ accounted p
  unfolding fold fold_into
  accounted-fold id f p = by_agg (at_id id p.aggs)
    where
      by_agg : (r : Option Agg) → accounted (fold_into id f p r) ≡ accounted p
      by_agg (some a) = refl
      by_agg none = accounted-fold_bytes (or_id id (at_id id p.copies)) (nth_or_zero 0 f) p _ refl
