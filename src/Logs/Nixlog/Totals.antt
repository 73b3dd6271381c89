-- ===== src/Logs/Nixlog/Totals.antt =====
-- Summary and FailureKind of nixlog.go.
use nix_repo_base.Base.{
  ℕ, ◌+◌, not, ◌&&◌, ◌||◌, Option, none, some, List, [], ◌∷◌, ltb, leb, ◌==◌, if◌then◌else◌,
}
use nix_repo_base.Logs.Nixlog.{
  ErrorType, build_failed, dependency_failed, hash_mismatch, eval_error, signal, other_error,
  Progress, Agg, Summary, type_copy_paths,
}
use nix_repo_base.Logs.Nixlog.Processor.{Processor, has_kind}

abbrev plus_progress : Option Progress → Progress → Option Progress
plus_progress none l = some l
plus_progress (some t) l = some (record {
  done = t.done + l.done;
  expected = t.expected + l.expected;
  failed = t.failed + l.failed;
})

-- The summary with the aggregates counted.
add_aggs : List (ℕ × Agg) → Summary → Summary
add_aggs [] s = s
add_aggs ((id, a) ∷ m) s = add_aggs m (
    if not a.seen || a.nested
    then s
    else if a.typ == type_copy_paths
    then record s { fetch = plus_progress s.fetch a.last }
    else record s { builds = plus_progress s.builds a.last })

unfoldable pub summary : Processor → Summary
unfolding add_aggs
summary p = add_aggs p.aggs p.sum

abbrev first_kind : List ErrorType → List ErrorType → Option ErrorType
first_kind [] kinds = none
first_kind (k ∷ ks) kinds = if has_kind k kinds then some k else first_kind ks kinds

-- Of the exit status, which is not negative; `none` is "".
unfoldable pub failure_kind : Summary → ℕ → Option ErrorType
failure_kind s exit =
    if (ltb 128 exit && leb exit (128 + 64)) || has_kind signal s.kinds
    then some signal
    else first_kind
        (hash_mismatch ∷ build_failed ∷ dependency_failed ∷ eval_error ∷ other_error ∷ []) s.kinds
