-- ===== src/Logs/Nixlog/Accounts/Run.antt =====
-- Every activity that starts reaches the sink once.
use nix_repo_base.Base.{
  ℕ, ◌+◌, ◌≡◌, refl, ap, ◌∙◌, true, ◌||◌, Option, none, some, List, [], ◌∷◌, total, total-append,
  total-sort_by, sort_by, ltb, ◌==◌, arith, Bool-cases, inl, inr,
}
use nix_repo_base.Base.Bytes.{Bytes}
use nix_repo_base.Logs.Nixlog.{
  Text, Kind, Activity, type_builds, type_copy_paths, type_copy_path, at_id, drop_id, Open, Event,
  Action, start_action, stop_action, msg_action, result_action, other_action,
}
use nix_repo_base.Logs.Nixlog.Processor.{
  Processor, new_processor, emit, span_of, on_start, on_stop, note_active, finish, acts,
  aborted_acts, values, emit_all,
}
use nix_repo_base.Logs.Nixlog.Messages.{on_msg, raw_or_msg}
use nix_repo_base.Logs.Nixlog.Lines.{
  on_result, fold_decoded, on_action, on_decoded, on_quick, on_line, quick, Quick, skip, quick_fold,
  decode_it, run_lines, counted,
}
use nix_repo_base.Base.Regex.{submatch}
use nix_repo_base.Logs.Nixlog.Text.{strip_ansi, trim_space, re_sqlite_busy}
use nix_repo_base.Logs.Nixlog.Fast.{decode_fields}
use nix_repo_base.Logs.Nixlog.Ids.{total_values}
use nix_repo_base.Logs.Nixlog.Accounts.{
  IsNew, note_active-IsNew, counted-IsNew, weight, weight_if, weight_open, accounted,
  accounted-open_span, accounted-close_span, accounted-or_busy, accounted-fold,
}

module _ (decode : Bytes → Option Event) (hostname : Text → Option Text) (min_span : ℕ) where
  -- The event of a line, unless the byte checks settle it.
  abbrev pub event_of : Quick → Bytes → Option Event
  event_of skip line = none
  event_of (quick_fold id f) line = none
  event_of decode_it line = decode line

  abbrev pub started_as : Action → Event → ℕ → Option Activity
  started_as start_action ev now = span_of hostname ev now
  started_as _ ev now = none

  -- The activity that an event starts.
  abbrev pub started_by : Option Event → ℕ → Option Activity
  started_by none now = none
  started_by (some ev) now = started_as ev.action ev now

  abbrev pub id_of : Option Event → ℕ
  id_of none = 0
  id_of (some ev) = ev.id

  -- Along a run, what starts has an identifier that no open activity has.
  unfoldable pub IsFresh : List (Bytes × ℕ) → Processor → Type 0
  IsFresh [] p = Unit
  IsFresh ((line, now) ∷ lines) p =
      let ev = event_of (quick line p) line in
      IsNew (id_of ev) p (started_by ev now)
      × IsFresh lines (on_line decode hostname min_span line now p)

  module _ (w : Kind → Text → ℕ → ℕ) where
    -- What starts along a run.
    unfoldable pub total_started : List (Bytes × ℕ) → Processor → ℕ
    total_started [] p = 0
    total_started ((line, now) ∷ lines) p =
        weight_if w (started_by (event_of (quick line p) line) now)
        + total_started lines (on_line decode hostname min_span line now p)

    -- Aggregates and copies are no spans.
    span_of-none :
        (ev : Event) (now : ℕ)
        → (ev.typ == type_builds || ev.typ == type_copy_paths) || ev.typ == type_copy_path ≡ true
        → span_of hostname ev now ≡ none
    span_of-none ev now h = ground arith

    accounted-note_active :
        (typ now : ℕ) (p : Processor) → accounted w (note_active typ now p) ≡ accounted w p
    accounted-note_active typ now p = ground arith

    accounted-on_start :
        (ev : Event) (now : ℕ) (p : Processor)
        → IsNew ev.id p (span_of hostname ev now)
        → accounted w (on_start hostname ev now p)
          ≡ accounted w p + weight_if w (span_of hostname ev now)
    unfolding on_start
    accounted-on_start ev now p new =
        let q = note_active ev.typ now p in
        elim (Bool-cases (ev.typ == type_builds || ev.typ == type_copy_paths)) [
          | inl agg ↦ rw agg (
              rw (span_of-none ev now (ground arith))
                (omega (arith, accounted-note_active ev.typ now p)))
          | inr no_agg ↦ elim (Bool-cases (ev.typ == type_copy_path)) [
            | inl copy ↦
                rw (no_agg, copy)
                  (rw (span_of-none ev now (ground arith))
                    (ground (arith, accounted-note_active ev.typ now p)))
            | inr span ↦
                rw (no_agg, span)
                  (accounted-open_span w ev.id q (span_of hostname ev now)
                      (note_active-IsNew ev.typ now ev.id p (span_of hostname ev now) new)
                    ∙ ap (λ n. n + weight_if w (span_of hostname ev now))
                        (accounted-note_active ev.typ now p))
          ]
        ]

    accounted-fold_decoded :
        (id : ℕ) (p : Processor) (r : Option (List ℕ))
        → accounted w (fold_decoded id p r) ≡ accounted w p
    unfolding fold_decoded
    accounted-fold_decoded id p none = refl
    accounted-fold_decoded id p (some f) = accounted-fold w id f p

    accounted-on_action :
        (a : Action) (ev : Event) (now : ℕ) (p : Processor)
        → IsNew ev.id p (started_as a ev now)
        → accounted w (on_action decode hostname min_span a ev now p)
          ≡ accounted w p + weight_if w (started_as a ev now)
    unfolding on_action on_stop on_msg on_result
    accounted-on_action start_action ev now p new = accounted-on_start ev now p new
    accounted-on_action stop_action ev now p new = omega (
      arith,
      accounted-close_span w min_span ev.id now (record p { copies = drop_id ev.id p.copies })
          (at_id ev.id p.active) refl,
    )
    accounted-on_action msg_action ev now p new = omega (
      arith,
      accounted-or_busy w ev.level (strip_ansi (raw_or_msg ev.raw_msg ev.msg))
          (trim_space (strip_ansi ev.msg)) now p
          (submatch re_sqlite_busy (trim_space (strip_ansi ev.msg))),
    )
    accounted-on_action result_action ev now p new =
        ground (arith, accounted-fold_decoded ev.id p (decode_fields ev.fields))
    accounted-on_action other_action ev now p new = omega arith

    accounted-on_decoded :
        (r : Option Event) (now : ℕ) (p : Processor)
        → IsNew (id_of r) p (started_by r now)
        → accounted w (on_decoded decode hostname min_span r now p)
          ≡ accounted w p + weight_if w (started_by r now)
    unfolding on_decoded
    accounted-on_decoded none now p new = omega arith
    accounted-on_decoded (some ev) now p new = accounted-on_action ev.action ev now p new

    accounted-on_quick :
        (k : Quick) (line : Bytes) (now : ℕ) (p : Processor)
        → IsNew (id_of (event_of k line)) p (started_by (event_of k line) now)
        → accounted w (on_quick decode hostname min_span k line now p)
          ≡ accounted w p + weight_if w (started_by (event_of k line) now)
    unfolding on_quick
    accounted-on_quick skip line now p new = omega arith
    accounted-on_quick (quick_fold id f) line now p new = omega (arith, accounted-fold w id f p)
    accounted-on_quick decode_it line now p new = accounted-on_decoded (decode line) now p new

    accounted-on_line :
        (line : Bytes) (now : ℕ) (p : Processor)
        → (let ev = event_of (quick line p) line in IsNew (id_of ev) p (started_by ev now))
        → accounted w (on_line decode hostname min_span line now p)
          ≡ accounted w p + weight_if w (started_by (event_of (quick line p) line) now)
    unfolding on_line quick
    accounted-on_line line now p new =
        accounted-on_quick (quick line p) line now
          (counted (λ s. record s { lines = s.lines + 1 }) p)
          (counted-IsNew (λ s. record s { lines = s.lines + 1 })
            (id_of (event_of (quick line p) line)) p (started_by (event_of (quick line p) line) now)
            new)

    accounted-run_lines :
        (lines : List (Bytes × ℕ)) (p : Processor)
        → IsFresh lines p
        → accounted w (run_lines decode hostname min_span lines p)
          ≡ accounted w p + total_started lines p
    unfolding run_lines IsFresh total_started
    accounted-run_lines [] p new = omega arith
    accounted-run_lines ((line, now) ∷ lines) p new = omega (
      arith,
      accounted-on_line line now p new.0,
      accounted-run_lines lines (on_line decode hostname min_span line now p) new.1,
    )

    total-emit_all :
        (as' : List Activity) (p : Processor)
        → total (weight w) (emit_all as' p).emitted
          ≡ total (weight w) p.emitted + total (weight w) as'
    unfolding emit_all
    total-emit_all [] p = omega arith
    total-emit_all (a ∷ as') p =
        omega (arith, total-emit_all as' (emit a p), total-append (weight w) p.emitted (a ∷ []))

    total-acts : (os : List Open) → total (weight w) (acts os) ≡ total (weight_open w) os
    unfolding acts
    total-acts [] = refl
    total-acts (o ∷ os) = omega (arith, total-acts os)

    total-aborted_acts :
        (now : ℕ) (os : List Open)
        → total (weight w) (aborted_acts now os) ≡ total (weight_open w) os
    unfolding aborted_acts
    total-aborted_acts now [] = refl
    total-aborted_acts now (o ∷ os) = omega (arith, total-aborted_acts now os)

    values-total :
        (m : List (ℕ × Open)) → total (weight_open w) (values m) ≡ total_values (weight_open w) m
    unfolding values
    values-total [] = refl
    values-total ((id, o) ∷ m) = omega (arith, values-total m)

    emit_all-active : (as' : List Activity) (p : Processor) → (emit_all as' p).active ≡ p.active
    unfolding emit_all
    emit_all-active [] p = refl
    emit_all-active (a ∷ as') p = emit_all-active as' (emit a p)

    -- At the end all that was emitted, held or active has been emitted.
    finish-accounted :
        (now : ℕ) (p : Processor) → total (weight w) (finish now p).emitted ≡ accounted w p
    unfolding finish
    finish-accounted now p =
        let q = emit_all (acts p.held) p in
        let rest = sort_by (λ a b. ltb a.order b.order) (values p.active) in
        omega (
          arith,
          total-emit_all (aborted_acts now rest) (record q { held = [] }),
          total-emit_all (acts p.held) p,
          total-acts p.held,
          total-aborted_acts now rest,
          total-sort_by (λ a b. ltb a.order b.order) (weight_open w) (values p.active),
          values-total p.active,
        )

    -- Where what starts has a new identifier, the sink has got, when the run is finished, whatever is
    -- counted by kind, path and start, exactly what was started: no activity is lost, and none is
    -- reported twice. (What a message alone made known is left aside.)
    pub finish-run_lines :
        (lines : List (Bytes × ℕ)) (now : ℕ)
        → IsFresh lines new_processor
        → total
            (weight w)
            (finish now (run_lines decode hostname min_span lines new_processor)).emitted
          ≡ total_started lines new_processor
    finish-run_lines lines now new = omega (
      arith,
      finish-accounted now (run_lines decode hostname min_span lines new_processor),
      accounted-run_lines lines new_processor new,
    )
