-- ===== src/Mutate/Pool/Fresh/Steps.antt =====
-- What the interleaving keeps: everything queued or held is unrecorded in the ledger, and what a
-- Refill in progress knows of a file is current unless the file is busy or was finished since.
use nix_repo_base.Base.{
  ℕ, zero, suc, ◌+◌, ◌%◌, ◌^◌, ◌≤◌, ◌<◌, total-get_elem?, String, ◌≡◌, ◌⊎◌, ap, ◌∙◌, Bool, true,
  false, some, List, [], ◌∷◌, ◌++◌, Dict, lookup, lookup-insert, mem, mem-delete, get_elem?, set,
  total, All, eq_iff, arith,
}
use mathlib.Core.Option.{some-injective}
use nix_repo_base.Mutate.Ledger.{Record, Line, recorded_at}
use nix_repo_base.Mutate.Ledger.Latest.{latest, latest-append}
use nix_repo_base.Mutate.Queue.{Entry, Queue, finish, or_zero}
use nix_repo_base.Mutate.Pool.{Worker, running, failing, recording, Refiller, reading, adding, Pass}
use nix_repo_base.Mutate.Pool.Ownership.{is_file, carries}

abbrev pub Unrecorded : List Line → Entry → Type 0
Unrecorded ls e = recorded_at (latest e.file ls) e.pkg_hash ≡ false

abbrev pub WorkerFresh : List Line → Worker → Type 0
WorkerFresh ls (running e) = Unrecorded ls e
WorkerFresh ls (failing e m) = Unrecorded ls e
WorkerFresh ls (recording e r) = Unrecorded ls e
WorkerFresh ls _ = Unit

-- What the snapshot says of a file is current, or the file is busy, or it was finished since.
abbrev pub Known : String → Pass → List Line → Queue → Type 0
Known f s ls q =
    (lookup f s.records ≡ latest f ls)
    ⊎ ((mem f q.outstanding ≡ true) ⊎ (s.snapshot_seq < or_zero (lookup f q.finished_at)))

abbrev pub Noted : Refiller → List Line → Queue → Type 0
Noted (reading s) ls q = s.snapshot_seq ≤ q.finish_seq
Noted (adding s) ls q = (s.snapshot_seq ≤ q.finish_seq) × ((f : String) → Known f s ls q)
Noted _ ls q = Unit

Known-finish :
    (f g : String) (s : Pass) (ls : List Line) (q : Queue)
    → q.finish_seq + 1 < 2 ^ 64
    → s.snapshot_seq ≤ q.finish_seq
    → Known f s ls q
    → Known f s ls (finish g q)
unfolding finish
Known-finish f g s ls q small le h = ground (
  arith,
  mem-delete g f q.outstanding,
  lookup-insert g f ((q.finish_seq + 1) % 2 ^ 64) q.finished_at,
)

pub Noted-finish :
    (g : String) (r : Refiller) (ls : List Line) (q : Queue)
    → q.finish_seq + 1 < 2 ^ 64
    → Noted r ls q
    → Noted r ls (finish g q)
unfolding finish
Noted-finish g (reading s) ls q small h = ground arith
Noted-finish g (adding s) ls q small h =
    (ground arith, λ f. Known-finish f g s ls q small h.0 (h.1 f))
Noted-finish g _ ls q small h = h

-- What a Refill knows rests on three fields of the queue.
pub Noted-same :
    (r : Refiller) (ls : List Line) (q : Queue) (d : Dict Bool)
    → Noted r ls q
    → Noted r ls (record q { project_filter = d })
Noted-same (reading s) ls q d h = h
Noted-same (adding s) ls q d h = h
Noted-same _ ls q d h = h

-- The record of a busy file changes what the ledger says of that file alone.
Known-append :
    (f : String) (s : Pass) (ls : List Line) (q : Queue) (l : Line) (r : Record)
    → l.decoded ≡ some r
    → mem r.file_path q.outstanding ≡ true
    → Known f s ls q
    → Known f s (ls ++ l ∷ []) q
Known-append f s ls q l r e busy h = ground (arith, latest-append f ls l, eq_iff r.file_path f)

pub Noted-append :
    (re : Refiller) (ls : List Line) (q : Queue) (l : Line) (r : Record)
    → l.decoded ≡ some r
    → mem r.file_path q.outstanding ≡ true
    → Noted re ls q
    → Noted re (ls ++ l ∷ []) q
Noted-append (reading s) ls q l r e busy h = h
Noted-append (adding s) ls q l r e busy h = (h.0, λ f. Known-append f s ls q l r e busy (h.1 f))
Noted-append _ ls q l r e busy h = h

module _ (ls : List Line) (l : Line) (r : Record) (e : l.decoded ≡ some r) where
  Unrecorded-append :
      (x : Entry) → is_file r.file_path x ≡ 0 → Unrecorded ls x → Unrecorded (ls ++ l ∷ []) x
  Unrecorded-append x z h =
      ground
        (arith, latest-append x.file ls l, eq_iff r.file_path x.file, eq_iff x.file r.file_path)

  pub pending-append :
      (xs : List Entry)
      → total (is_file r.file_path) xs ≡ 0
      → All (Unrecorded ls) xs
      → All (Unrecorded (ls ++ l ∷ [])) xs
  pending-append [] z h = tt
  pending-append (x ∷ xs) z h =
      (Unrecorded-append x (omega arith) h.0, pending-append xs (omega arith) h.1)

  WorkerFresh-append :
      (w : Worker) → carries r.file_path w ≡ 0 → WorkerFresh ls w → WorkerFresh (ls ++ l ∷ []) w
  WorkerFresh-append (running x) z h = Unrecorded-append x z h
  WorkerFresh-append (failing x m) z h = Unrecorded-append x z h
  WorkerFresh-append (recording x o) z h = Unrecorded-append x z h
  WorkerFresh-append _ z h = tt

  workers-append :
      (ws : List Worker)
      → total (carries r.file_path) ws ≡ 0
      → All (WorkerFresh ls) ws
      → All (WorkerFresh (ls ++ l ∷ [])) ws
  workers-append [] z h = tt
  workers-append (w ∷ ws) z h =
      (WorkerFresh-append w (omega arith) h.0, workers-append ws (omega arith) h.1)

  -- The worker that appends is the only one that holds the file.
  pub workers-append_set :
      (ws : List Worker) (n : ℕ) (w w' : Worker)
      → get_elem? ws n ≡ some w
      → carries r.file_path w ≡ 1
      → total (carries r.file_path) ws ≤ 1
      → WorkerFresh (ls ++ l ∷ []) w'
      → All (WorkerFresh ls) ws
      → All (WorkerFresh (ls ++ l ∷ [])) (set ws n w')
  workers-append_set [] n w w' at one le h' h = tt
  workers-append_set (x ∷ ws) zero w w' at one le h' h =
      let here : carries r.file_path x ≡ 1 =
        ap (carries r.file_path) (some-injective x w at) ∙ one in
      (h', workers-append ws (omega arith) h.1)
  workers-append_set (x ∷ ws) (suc n) w w' at one le h' h = (
    WorkerFresh-append x (omega (arith, total-get_elem? (carries r.file_path) ws n w at)) h.0,
    workers-append_set ws n w w' at one (omega arith) h' h.1,
  )
