-- ===== src/Logs/Nixlog/Reported/Run.antt =====
-- A derivation that a message names is reported as failed.
use nix_repo_base.Base.{
  ℕ, ◌+◌, ◌≡◌, refl, true, ◌&&◌, ◌||◌, Option, none, some, List, [], ◌∷◌, any, any-sort_by, sort_by,
  ltb, ◌==◌, arith, Bool-cases, inl, inr,
}
use nix_repo_base.Base.Bytes.{Bytes, bytes_eq, is_some}
use nix_repo_base.Base.Regex.{submatch}
use nix_repo_base.Logs.Nixlog.{
  Text, Activity, Open, Agg, Event, Action, start_action, stop_action, msg_action, result_action,
  other_action, at_id, drop_id, type_builds, type_copy_paths, type_copy_path,
}
use nix_repo_base.Logs.Nixlog.Text.{
  strip_ansi, trim_space, re_sqlite_busy, re_plan_build, re_plan_fetch,
}
use nix_repo_base.Logs.Nixlog.Fast.{decode_fields}
use nix_repo_base.Logs.Nixlog.Processor.{
  Processor, new_processor, emit, span_of, is_open_substitute, note_active, on_start, on_stop,
  failure_of, finish, acts, aborted_acts, values, emit_all,
}
use nix_repo_base.Logs.Nixlog.Messages.{on_not_busy, or_busy, on_msg, note_plan, raw_or_msg}
use nix_repo_base.Logs.Nixlog.Lines.{
  fold, fold_into, fold_bytes, or_id, nth_or_zero, fold_decoded, on_result, on_action, on_decoded,
  on_quick, on_line, quick, Quick, skip, quick_fold, decode_it, run_lines, tracked, counted,
}
use nix_repo_base.Logs.Nixlog.Accounts.{IsNew, note_active-IsNew, counted-IsNew}
use nix_repo_base.Logs.Nixlog.Accounts.Run.{event_of, started_as, started_by, id_of, IsFresh}
use nix_repo_base.Logs.Nixlog.Reported.{
  reports, is_open_build, IsReported, open_span-IsReported, close_span-IsReported,
  on_error-IsReported, any-put_id_old, any-append,
}
use nix_repo_base.Logs.Nixlog.Reported.Noted.{says, run_lines-IsNoted}

module _ (decode : Bytes → Option Event) (hostname : Text → Option Text) (min_span : ℕ)
    (path : Text) where
  note_active-IsReported :
      (typ now : ℕ) (p : Processor) → IsReported path p → IsReported path (note_active typ now p)
  note_active-IsReported typ now p v h = ground (arith, v)

  on_start-IsReported :
      (ev : Event) (now : ℕ) (p : Processor)
      → IsNew ev.id p (span_of hostname ev now)
      → IsReported path p
      → IsReported path (on_start hostname ev now p)
  unfolding on_start
  on_start-IsReported ev now p new v =
      let q = note_active ev.typ now p in
      let u = note_active-IsReported ev.typ now p v in
      elim (Bool-cases (ev.typ == type_builds || ev.typ == type_copy_paths)) [
        | inl agg ↦ rw agg u
        | inr no_agg ↦ elim (Bool-cases (ev.typ == type_copy_path)) [
          | inl copy ↦ elim (Bool-cases (is_open_substitute ev.parent q)) [
            | inl sub ↦ rw (no_agg, copy, sub) u
            | inr other ↦ rw (no_agg, copy, other) u
          ]
          | inr span ↦
              rw (no_agg, span)
                (open_span-IsReported path ev.id q (span_of hostname ev now)
                  (note_active-IsNew ev.typ now ev.id p (span_of hostname ev now) new) u)
        ]
      ]

  fold_bytes-IsReported :
      (id done : ℕ) (p : Processor) (r : Option Open)
      → at_id id p.active ≡ r
      → IsReported path p
      → IsReported path (fold_bytes id done p r)
  unfolding fold_bytes
  fold_bytes-IsReported id done p none here v h = v h
  fold_bytes-IsReported id done p (some o) here v h = ground (
    arith,
    v,
    any-put_id_old (is_open_build path) id o (record o { act = record o.act { bytes = some done } })
        p.active here refl,
  )

  fold-IsReported :
      (id : ℕ) (f : List ℕ) (p : Processor) → IsReported path p → IsReported path (fold id f p)
  unfolding fold fold_into
  fold-IsReported id f p v = by_agg (at_id id p.aggs)
    where
      by_agg : (r : Option Agg) → IsReported path (fold_into id f p r)
      by_agg (some a) = v
      by_agg none =
          fold_bytes-IsReported (or_id id (at_id id p.copies)) (nth_or_zero 0 f) p
            (at_id (or_id id (at_id id p.copies)) p.active) refl v

  fold_decoded-IsReported :
      (id : ℕ) (p : Processor) (r : Option (List ℕ))
      → IsReported path p
      → IsReported path (fold_decoded id p r)
  unfolding fold_decoded
  fold_decoded-IsReported id p none v = v
  fold_decoded-IsReported id p (some f) v = fold-IsReported id f p v

  note_plan-IsReported :
      (p : Processor) (r t : Option (ℕ → Text))
      → IsReported path p
      → IsReported path (note_plan p r t)
  note_plan-IsReported p (some g) t v = v
  note_plan-IsReported p none (some g) v = v
  note_plan-IsReported p none none v = v

  or_busy-IsReported :
      (level : ℕ) (said clean : Text) (now : ℕ) (p : Processor) (r : Option (ℕ → Text))
      → IsReported path p
      → IsReported path (or_busy level said clean now p r)
  unfolding or_busy on_not_busy
  or_busy-IsReported level said clean now p (some g) v = λ h. ground (arith, v)
  or_busy-IsReported level said clean now p none v = elim (Bool-cases (level == 0)) [
    | inl error ↦ rw error (on_error-IsReported path said clean now p v)
    | inr info ↦
        rw info
          (note_plan-IsReported p (submatch re_plan_build said) (submatch re_plan_fetch said) v)
  ]

  on_result-IsReported :
      (ev : Event) (p : Processor) → IsReported path p → IsReported path (on_result ev p)
  unfolding on_result
  on_result-IsReported ev p v = elim (Bool-cases (ev.typ == 105 && tracked ev.id p)) [
    | inl kept ↦ rw kept (fold_decoded-IsReported ev.id p (decode_fields ev.fields) v)
    | inr skipped ↦ rw skipped v
  ]

  on_action-IsReported :
      (a : Action) (ev : Event) (now : ℕ) (p : Processor)
      → IsNew ev.id p (started_as decode hostname min_span a ev now)
      → IsReported path p
      → IsReported path (on_action decode hostname min_span a ev now p)
  unfolding on_action on_stop on_msg
  on_action-IsReported start_action ev now p new v = on_start-IsReported ev now p new v
  on_action-IsReported stop_action ev now p new v =
      close_span-IsReported path min_span ev.id now (record p { copies = drop_id ev.id p.copies })
        (at_id ev.id p.active) refl v
  on_action-IsReported msg_action ev now p new v =
      or_busy-IsReported ev.level (strip_ansi (raw_or_msg ev.raw_msg ev.msg))
        (trim_space (strip_ansi ev.msg)) now p
        (submatch re_sqlite_busy (trim_space (strip_ansi ev.msg))) v
  on_action-IsReported result_action ev now p new v = on_result-IsReported ev p v
  on_action-IsReported other_action ev now p new v = v

  on_quick-IsReported :
      (k : Quick) (line : Bytes) (now : ℕ) (p : Processor)
      → (let ev = event_of decode hostname min_span k line in
          IsNew (id_of decode hostname min_span ev) p (started_by decode hostname min_span ev now))
      → IsReported path p
      → IsReported path (on_quick decode hostname min_span k line now p)
  unfolding on_quick on_decoded
  on_quick-IsReported skip line now p new v = v
  on_quick-IsReported (quick_fold id f) line now p new v = fold-IsReported id f p v
  on_quick-IsReported decode_it line now p new v = by_event (decode line) new
    where
      by_event :
          (r : Option Event)
          → IsNew (id_of decode hostname min_span r) p (started_by decode hostname min_span r now)
          → IsReported path (on_decoded decode hostname min_span r now p)
      by_event none fresh = v
      by_event (some ev) fresh = on_action-IsReported ev.action ev now p fresh v

  run_lines-IsReported :
      (lines : List (Bytes × ℕ)) (p : Processor)
      → IsFresh decode hostname min_span lines p
      → IsReported path p
      → IsReported path (run_lines decode hostname min_span lines p)
  unfolding run_lines IsFresh on_line quick
  run_lines-IsReported [] p new v = v
  run_lines-IsReported ((line, now) ∷ lines) p new v =
      let q = counted (λ s. record s { lines = s.lines + 1 }) p in
      let ev = event_of decode hostname min_span (quick line p) line in
      run_lines-IsReported lines (on_line decode hostname min_span line now p) new.1 (
        on_quick-IsReported (quick line p) line now q
          (counted-IsNew (λ s. record s { lines = s.lines + 1 }) (id_of decode hostname min_span ev)
            p (started_by decode hostname min_span ev now) new.0)
          v)

  any-emit_all :
      (as' : List Activity) (p : Processor)
      → any (reports path) (emit_all as' p).emitted
        ≡ (any (reports path) p.emitted || any (reports path) as')
  unfolding emit_all
  any-emit_all [] p = ground arith
  any-emit_all (a ∷ as') p =
      ground (arith, any-emit_all as' (emit a p), any-append (reports path) p.emitted (a ∷ []))

  any-aborted_acts :
      (now : ℕ) (os : List Open)
      → any (reports path) (aborted_acts now os) ≡ any (λ o. bytes_eq o.act.path path) os
  unfolding aborted_acts
  any-aborted_acts now [] = refl
  any-aborted_acts now (o ∷ os) = ground (arith, any-aborted_acts now os)

  any-values :
      (m : List (ℕ × Open))
      → any (λ e. is_open_build path e.1) m ≡ true
      → any (λ o. bytes_eq o.act.path path) (values m) ≡ true
  unfolding values
  any-values [] h = cc
  any-values ((id, o) ∷ m) h = ground (arith, any-values m)

  finish-IsReported :
      (now : ℕ) (p : Processor)
      → IsReported path p
      → is_some (failure_of path p.failed) ≡ true
      → any (reports path) (finish now p).emitted ≡ true
  unfolding finish
  finish-IsReported now p v h =
      let q = emit_all (acts p.held) p in
      let rest = sort_by (λ a b. ltb a.order b.order) (values p.active) in
      ground (
        arith,
        v h,
        any-emit_all (aborted_acts now rest) (record q { held = [] }),
        any-emit_all (acts p.held) p,
        any-aborted_acts now rest,
        any-sort_by (λ a b. ltb a.order b.order) (λ o. bytes_eq o.act.path path) (values p.active),
        any-values p.active,
      )

  -- Where each activity that starts has an identifier that no open one has: if some line of the run is a
  -- message of nix that names a derivation it cannot build, or one with another hash than specified,
  -- then the derivation is reported: when the run is finished, the sink has got a failed activity with
  -- its path. The message is an error and not about a busy database, and its line does not begin like a
  -- result.
  pub finish-reports :
      (lines : List (Bytes × ℕ)) (now : ℕ)
      → IsFresh decode hostname min_span lines new_processor
      → any (λ e. says decode path e.0) lines ≡ true
      → any
          (reports path)
          (finish now (run_lines decode hostname min_span lines new_processor)).emitted
        ≡ true
  unfolding failure_of
  finish-reports lines now new h =
      finish-IsReported now (run_lines decode hostname min_span lines new_processor)
        (run_lines-IsReported lines new_processor new none_named)
        (run_lines-IsNoted decode hostname min_span path lines new_processor (ground (arith, h)))
    where
      none_named : IsReported path new_processor
      none_named h = cc
