-- ===== src/Mutate/Queue.antt =====
-- internal/queue/queue.go. A method that holds the mutex is one function on the state. `time.Time{}`
-- is `none`, and a time is the nanoseconds of the monotonic clock.
use nix_repo_base.Base.{
  ℕ, suc, ◌+◌, ◌-◌, ◌%◌, ◌^◌, String, Bool, true, false, ◌&&◌, ◌||◌, not, Option, none, some, List,
  [], ◌∷◌, ◌++◌, Dict, lookup, insert, mem, delete, length, ltb, leb, if◌then◌else◌,
}
use nix_repo_base.Mutate.Ledger.{Record, recorded_at}

pub record Entry : Type 0 where
  pub file : String
  pub pkg_hash : String

-- discover.Package
pub record Package : Type 0 where
  pub project_key : String
  pub pkg_path : String
  pub abs_path : String
  pub files : List String

pub record Queue : Type 0 where
  pub low : ℕ
  pub high : ℕ
  pub retry_backoff : ℕ
  pub pending : List Entry
  pub outstanding : List String
  pub finish_seq : ℕ  -- uint64
  pub finished_at : Dict ℕ
  pub last_empty_refill : Option ℕ
  pub project_filter : Dict Bool

abbrev pub u64 : ℕ → ℕ
u64 n = n % 2 ^ 64

unfoldable pub new_queue : ℕ → ℕ → ℕ → Queue
new_queue low high retry_backoff = record {
  low = low;
  high = high;
  retry_backoff = retry_backoff;
  pending = [];
  outstanding = [];
  finish_seq = 0;
  finished_at = [];
  last_empty_refill = none;
  project_filter = [];
}

unfoldable pub depth : Queue → ℕ
depth q = length q.pending

unfoldable pub needs_refill : Queue → Bool
unfolding depth
needs_refill q = ltb (depth q) q.low

unfoldable pub pop_front : List Entry → Queue → Queue × Option Entry
pop_front [] q = (q, none)
pop_front (e ∷ es) q = (record q { pending = es }, some e)

unfoldable pub pop : Queue → Queue × Option Entry
unfolding pop_front
pop q = pop_front q.pending q

unfoldable pub finish : String → Queue → Queue
finish file q =
    let seq = u64 (q.finish_seq + 1) in
    record q {
      outstanding = delete file q.outstanding;
      finish_seq = seq;
      finished_at = insert file seq q.finished_at;
    }

unfoldable pub set_project_filter : Dict Bool → Queue → Queue
set_project_filter included q = record q { project_filter = included }

unfoldable pub record_empty_refill : ℕ → Queue → Queue
record_empty_refill now q = record q { last_empty_refill = some now }

unfoldable pub retry_backoff_elapsed : ℕ → Queue → Bool
retry_backoff_elapsed now q = elim q.last_empty_refill [
  | none ↦ true
  | some t ↦ leb q.retry_backoff (now - t)
]

-- A missing key of a Go map reads as the zero value.
abbrev pub or_zero : Option ℕ → ℕ
or_zero none = 0
or_zero (some n) = n

abbrev pub or_false : Option Bool → Bool
or_false none = false
or_false (some b) = b

-- `len(filter) > 0 && !filter[key]`
unfoldable pub skips : Dict Bool → String → Bool
skips filter key = ltb 0 (length filter) && not (or_false (lookup key filter))

-- The part of Refill's inner loop that holds the mutex, for one file.
unfoldable pub offer : ℕ → String → String → Queue → Queue × Bool
offer snapshot_seq hash f q =
    if mem f q.outstanding || ltb snapshot_seq (or_zero (lookup f q.finished_at))
    then (q, false)
    else (
      record q {
        outstanding = f ∷ q.outstanding;
        pending = q.pending ++ record { file = f; pkg_hash = hash } ∷ [];
      },
      true,
    )

abbrev pub counted : Bool → ℕ → ℕ
counted true n = suc n
counted false n = n

unfoldable pub refill_file : Dict Record → ℕ → String → String → Queue × ℕ → Queue × ℕ
unfolding offer
refill_file records snapshot_seq hash f (q, added) =
    if recorded_at (lookup f records) hash
    then (q, added)
    else let (q', new) = offer snapshot_seq hash f q in (q', counted new added)

-- The last critical section of Refill.
unfoldable pub settle : ℕ → Queue → Queue
settle added q = record q { last_empty_refill = if ltb 0 added then none else q.last_empty_refill }
