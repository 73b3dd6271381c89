-- ===== src/Mutate/Pool/Fresh/State.antt =====
-- The invariant, and the steps that it allows for.
use nix_repo_base.Base.{ℕ, ◌≡◌, ◌≢◌, true, false, none, List, All, leb}
use nix_repo_base.Mutate.Ledger.{LedgerFile, short_write, max_line_size}
use nix_repo_base.Mutate.Ledger.Latest.{Fits}
use nix_repo_base.Mutate.Queue.{Queue}
use nix_repo_base.Mutate.Pool.{Worker, Pool, Event, Refiller, work, refill}
use nix_repo_base.Mutate.Pool.Fresh.Steps.{Unrecorded, WorkerFresh, Noted}

-- A step at which the disk does not tear a line and the ledger can be opened.
abbrev pub IsClean : Event → Type 0
IsClean (work n i) = ((k : ℕ) → i.io ≢ short_write k) × (leb max_line_size i.size ≡ false)
IsClean (refill i) = i.opened ≡ true
IsClean _ = Unit

pub record Fresh (file : LedgerFile) (q : Queue) (ws : List Worker) (r : Refiller) : Type 0 where
  pub whole : file.tail ≡ none
  pub fits : All Fits file.lines
  pub pending : All (Unrecorded file.lines) q.pending
  pub workers : All (WorkerFresh file.lines) ws
  pub noted : Noted r file.lines q

abbrev pub IsFresh : Pool → Type 0
IsFresh p = Fresh p.ledger p.queue p.workers p.refiller
