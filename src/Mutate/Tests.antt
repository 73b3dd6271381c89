-- ===== src/Mutate/Tests.antt =====
-- Runs of the queue, the ledger and the pool on small inputs.
use nix_repo_base.Mutate.Pool.{step}
use nix_repo_base.Mutate.Queue.{
  needs_refill, retry_backoff_elapsed, skips, pop, settle, refill_file, finish,
}
use nix_repo_base.Base.{sort_by, insert, delete}
use nix_repo_base.Base.{
  ◌+◌, String, ◌≡◌, refl, true, false, none, some, List, [], ◌∷◌, ◌++◌, Dict, lookup, total, one_if,
  mem, All, arith,
}
use nix_repo_base.Mutate.Ledger.{
  Record, Line, LedgerFile, written, append, replay, needs_run, tail_lines,
}
use nix_repo_base.Mutate.Ledger.Latest.{latest, lookup-replay}
use nix_repo_base.Mutate.Ledger.Appends.{needs_run-append, needs_run-append_torn}
use nix_repo_base.Mutate.Queue.{Package, new_queue}
use nix_repo_base.Mutate.Pool.{no_error, Event, work, refill, Pool, run, start}
use nix_repo_base.Mutate.Pool.Ownership.{held_once, is_file, carries}
use nix_repo_base.Mutate.Pool.Fresh.{no_repeat}
use nix_repo_base.Mutate.Pool.Fresh.State.{IsClean}
use nix_repo_base.Mutate.Pool.Fresh.Steps.{Unrecorded, WorkerFresh}

abbrev record_of : String → String → Record
record_of file hash = record {
  file_path = file;
  package_hash = hash;
  status = "passed";
  report_path = "";
  root_git_hash = "";
  timestamp = 0;
}

abbrev old_line : Line
old_line = record { size = 120; decoded = some (record_of "a.go" "h0") }

abbrev old_file : LedgerFile
old_file = record { lines = old_line ∷ []; tail = none }

abbrev torn_line : Line
torn_line = record { size = 40; decoded = none }

abbrev torn_file : LedgerFile
torn_file = record { lines = old_line ∷ []; tail = some torn_line }

abbrev sample : Package
sample = record {
  project_key = "p";
  pkg_path = "p/a";
  abs_path = "/p/a";
  files = "a.go" ∷ "b.go" ∷ [];
}

abbrev refilled : Event
refilled = refill (record {
  now = 5;
  candidates = some (sample ∷ []);
  recency = λ p. 0;
  opened = true;
  computed = some "h1";
})

abbrev worked : Event
worked = work 0 (record {
  result = record { status = "passed"; report_path = ""; error = no_error };
  io = written;
  size = 100;
})

-- A refill of the two files, then one round of the worker.
abbrev schedule : List Event
schedule =
    refilled ∷ refilled ∷ refilled ∷ refilled ∷ refilled ∷ refilled ∷ refilled ∷ refilled ∷ worked
    ∷ worked ∷ worked ∷ worked ∷ worked ∷ worked ∷ worked ∷ worked ∷ []

abbrev after_schedule : Pool
after_schedule = run schedule (start 1 true (new_queue 2 10 60) old_file)

-- The worker has recorded its first file and given it back.
one_left : after_schedule.queue.outstanding ≡ "b.go" ∷ []
unfolding run start new_queue step needs_refill retry_backoff_elapsed sort_by skips pop settle
    refill_file lookup replay insert mem finish delete
one_left = refl

notified_once : after_schedule.notified ≡ "a.go" ∷ []
unfolding run start new_queue step needs_refill retry_backoff_elapsed sort_by skips pop settle
    refill_file lookup replay insert mem
notified_once = refl

held_once_example :
    total (is_file "b.go") after_schedule.queue.pending
      + total (carries "b.go") after_schedule.workers
    ≡ one_if (mem "b.go" after_schedule.queue.outstanding)
held_once_example = held_once "b.go" 1 2 10 60 true old_file schedule

clean : All IsClean schedule
clean = (
  refl,
  (
    refl,
    (
      refl,
      (
        refl,
        (
          refl,
          (
            refl,
            (
              refl,
              (
                refl,
                (
                  ((λ k h. cc), refl),
                  (
                    ((λ k h. cc), refl),
                    (
                      ((λ k h. cc), refl),
                      (
                        ((λ k h. cc), refl),
                        (
                          ((λ k h. cc), refl),
                          (((λ k h. cc), refl), (((λ k h. cc), refl), (((λ k h. cc), refl), tt))),
                        ),
                      ),
                    ),
                  ),
                ),
              ),
            ),
          ),
        ),
      ),
    ),
  ),
)

no_repeat_example :
    All (Unrecorded after_schedule.ledger.lines) after_schedule.queue.pending
    × All (WorkerFresh after_schedule.ledger.lines) after_schedule.workers
no_repeat_example = no_repeat 1 2 10 60 true old_file schedule refl (refl, tt) clean (omega arith)

needs_run-append_example :
    needs_run true (append written 100 (record_of "a.go" "h1") old_file).0 "a.go" "h1" ≡ false
needs_run-append_example =
    needs_run-append 100 (record_of "a.go" "h1") old_file "a.go" "h1" refl (refl, tt) refl

needs_run-append_torn_example :
    ((append written 100 (record_of "a.go" "h1") torn_file).1 ≡ none)
    × (needs_run true (append written 100 (record_of "a.go" "h1") torn_file).0 "a.go" "h1"
        ≡ needs_run true old_file "a.go" "h1")
needs_run-append_torn_example =
    needs_run-append_torn 100 (record_of "a.go" "h1") torn_file torn_line "a.go" "h1" refl
      (refl, tt) refl

-- The file that was just recorded as done needs another run.
torn_runs_again :
    needs_run true (append written 100 (record_of "a.go" "h1") torn_file).0 "a.go" "h1" ≡ true
unfolding needs_run append lookup insert
torn_runs_again = refl

abbrev replayed : Dict Record
replayed = ("a.go", record_of "a.go" "h0") ∷ []

lookup-replay_example :
    lookup "a.go" replayed ≡ latest "a.go" (torn_file.lines ++ tail_lines torn_file.tail)
unfolding insert
lookup-replay_example = lookup-replay true torn_file "a.go" (unfold replay in refl)
