-- ===== src/Mutate/Pool.antt =====
-- internal/worker/worker.go and the refill goroutine of cmd/pg-go-mutate-tui/main.go, which run at
-- the same time. Each critical section, each call out and each read of shared state is one step; a
-- schedule picks whose step is next, and says what the outside world answers.
pub mod Ownership
pub mod Fresh
use nix_repo_base.Base.{
  ℕ, zero, suc, String, Bool, true, false, Option, none, some, List, [], ◌∷◌, ◌++◌, Dict, ltb,
  get_elem?, set, replicate, sort_by, if◌then◌else◌,
}
use nix_repo_base.Mutate.Ledger.{Record, LedgerFile, AppendIo, append, replay}
use nix_repo_base.Mutate.Queue.{
  Entry, Package, Queue, new_queue, needs_refill, pop, finish, set_project_filter,
  record_empty_refill, retry_backoff_elapsed, skips, refill_file, settle,
}

pub data RunErr : Type 0 where
  no_error err_retry other_error : RunErr
  err_fatal : String → RunErr

-- What RunFunc returns.
pub record RunResult : Type 0 where
  pub status : String
  pub report_path : String
  pub error : RunErr

-- What a worker does once it has released its file.
pub data After : Type 0 where
  return_now next_file notify : After

-- Where a worker goroutine stands in the loop of Run.
pub data Worker : Type 0 where
  at_top checked_ctx checked_fatal popping stopped : Worker
  running : Entry → Worker
  failing : Entry → String → Worker
  recording : Entry → RunResult → Worker
  releasing : Entry → After → Worker
  notifying : String → Worker

-- The local variables of one Refill.
pub record Pass : Type 0 where
  pub filter : Dict Bool
  pub snapshot_seq : ℕ
  pub packages : List Package
  pub records : Dict Record
  pub hash : String
  pub files : List String
  pub added : ℕ

-- Where the refill goroutine stands in refillOnce.
pub data Refiller : Type 0 where
  resting backing_off discovering must_back_off : Refiller
  reading adding : Pass → Refiller

pub record Pool : Type 0 where
  pub queue : Queue
  pub ledger : LedgerFile
  pub workers : List Worker
  pub refiller : Refiller
  pub paused : Bool
  pub cancelled : Bool
  pub fatal : Option String
  pub on_recorded : Bool
  pub notified : List String

-- What a worker's step may need from outside: RunFunc's result, and how the Append goes.
pub record WorkInput : Type 0 where
  pub result : RunResult
  pub io : AppendIo
  pub size : ℕ

-- What a step of the refill goroutine may need: the time, the packages that discovery finds, git's
-- recency, whether the ledger opens, and the package's current hash.
pub record RefillInput : Type 0 where
  pub now : ℕ
  pub candidates : Option (List Package)
  pub recency : String → ℕ
  pub opened : Bool
  pub computed : Option String

pub data Event : Type 0 where
  work : ℕ → WorkInput → Event
  refill : RefillInput → Event
  pause resume cancel : Event
  filter_projects : Dict Bool → Event

abbrev set_fatal : String → Option String → Option String
set_fatal e none = some e
set_fatal e (some e') = some e'

after_run : Entry → RunResult → RunErr → Worker
after_run e r no_error = recording e r
after_run e r other_error = recording e r
after_run e r err_retry = releasing e next_file
after_run e r (err_fatal m) = failing e m

after_release : String → After → Worker
after_release f return_now = stopped
after_release f next_file = at_top
after_release f notify = notifying f

dequeued : Option Entry → Worker
dequeued none = stopped
dequeued (some e) = running e

abbrev to_record : Entry → RunResult → Record
to_record e r = record {
  file_path = e.file;
  package_hash = e.pkg_hash;
  status = r.status;
  report_path = r.report_path;
  root_git_hash = "";
  timestamp = 0;
}

-- One step of a worker: its next state, and the pool after it.
unfoldable pub work_step : WorkInput → Worker → Pool → Worker × Pool
unfolding after_run after_release dequeued
work_step i at_top p = (if p.cancelled then stopped else checked_ctx, p)
work_step i checked_ctx p = (elim p.fatal [ none ↦ checked_fatal | some e ↦ stopped ], p)
work_step i checked_fatal p = (if p.paused then at_top else popping, p)
work_step i popping p = let (q, e) = pop p.queue in (dequeued e, record p { queue = q })
work_step i (running e) p = (after_run e i.result i.result.error, p)
work_step i (failing e m) p = (releasing e return_now, record p { fatal = set_fatal m p.fatal })
work_step i (recording e r) p =
    (releasing e notify, record p { ledger = (append i.io i.size (to_record e r) p.ledger).0 })
work_step i (releasing e a) p = (after_release e.file a, record p { queue = finish e.file p.queue })
work_step i (notifying f) p =
    (at_top, record p { notified = if p.on_recorded then p.notified ++ f ∷ [] else p.notified })
work_step i stopped p = (stopped, p)

put_back : ℕ → Worker × Pool → Pool
put_back n (w, p) = record p { workers = set p.workers n w }

pub work_at : ℕ → WorkInput → Pool → Option Worker → Pool
unfolding work_step put_back
work_at n i p none = p
work_at n i p (some w) = put_back n (work_step i w p)

-- `sort.Slice` by recency, the latest first.
by_recency : (String → ℕ) → List Package → List Package
by_recency recency = sort_by (λ a b. ltb (recency b.pkg_path) (recency a.pkg_path))

-- A ledger that cannot be read counts as empty.
abbrev or_empty : Option (Dict Record) → Dict Record
or_empty none = []
or_empty (some m) = m

discovered : RefillInput → Pool → Option (List Package) → Refiller
unfolding by_recency
discovered i p none = resting
discovered i p (some candidates) = reading (record {
  filter = p.queue.project_filter;
  snapshot_seq = p.queue.finish_seq;
  packages = by_recency i.recency candidates;
  records = [];
  hash = "";
  files = [];
  added = 0;
})

-- The loops of Refill, one file or one package at a time.
scan_package : Option String → Package → List Package → Pass → Refiller
scan_package none pkg rest s = must_back_off
scan_package (some h) pkg rest s =
    adding (record s { packages = rest; hash = h; files = pkg.files })

add_step : RefillInput → List String → List Package → Pass → Pool → Pool
unfolding scan_package
add_step i (f ∷ fs) pkgs s p =
    let (q, n) = refill_file s.records s.snapshot_seq s.hash f (p.queue, s.added) in
    record p { queue = q; refiller = adding (record s { files = fs; added = n }) }
add_step i [] (pkg ∷ rest) s p = record p {
  refiller =
      if skips s.filter pkg.project_key
      then adding (record s { packages = rest })
      else scan_package i.computed pkg rest s;
}
add_step i [] [] s p = record p {
  queue = settle s.added p.queue;
  refiller = if ltb 0 s.added then resting else must_back_off;
}

pub refill_step : RefillInput → Refiller → Pool → Pool
unfolding add_step discovered
refill_step i resting p = record p {
  refiller = if needs_refill p.queue then backing_off else resting;
}
refill_step i backing_off p = record p {
  refiller = if retry_backoff_elapsed i.now p.queue then discovering else resting;
}
refill_step i discovering p = record p { refiller = discovered i p i.candidates }
refill_step i (reading s) p = record p {
  refiller = adding (record s { records = or_empty (replay i.opened p.ledger) });
}
refill_step i (adding s) p = add_step i s.files s.packages s p
refill_step i must_back_off p = record p {
  queue = record_empty_refill i.now p.queue;
  refiller = resting;
}

unfoldable pub step : Event → Pool → Pool
unfolding work_at refill_step
step (work n i) p = work_at n i p (get_elem? p.workers n)
step (refill i) p = refill_step i p.refiller p
step pause p = record p { paused = true }
step resume p = record p { paused = false }
step cancel p = record p { cancelled = true }
step (filter_projects d) p = record p { queue = set_project_filter d p.queue }

unfoldable pub run : List Event → Pool → Pool
run [] p = p
run (e ∷ es) p = run es (step e p)

-- Run, called with `concurrency` on a ledger that earlier processes have written.
unfoldable pub start : ℕ → Bool → Queue → LedgerFile → Pool
start concurrency on_recorded q ledger = record {
  queue = q;
  ledger = ledger;
  workers = replicate concurrency at_top;
  refiller = resting;
  paused = false;
  cancelled = false;
  fatal = none;
  on_recorded = on_recorded;
  notified = [];
}
