-- ===== src/Lib.antt =====
-- A model of the decision-making parts of nix-repo-base, with proofs. Parts of three of its Go
-- programs are covered.
--
-- Workspace: the dependency engine of `pn` (modules/pn/internal/workspace). A workspace is a set of
-- repositories, each a flake. `buildEdges` matches the URLs of their inputs against the URLs of the
-- repositories, which gives edges with an alias, and sorts the repositories so that what others need
-- comes first; the result is kept in a lock file that `ParseLock` checks and a workforest restricts
-- to a subset of members.
--   Workspace/Config      config.go, lock.go, edges.go: the types
--   Workspace/Url         canonical_url.go: canonicalURL, stripPort, normalizePath, displayURL
--   Workspace/Dag         dag.go: topoSortByDeps; its proofs in Dag/Counts and Dag/Order
--   Workspace/Edges       edges.go and helpers.go: buildEdges, edgesToDependsOn, orderingDeps,
--                         orderedRepoNames; its proofs in Edges/Index, Errors, Valid, Order
--                         and Foundation
--   Workspace/Lock        lock.go, workforest_subset.go, lockMatchesConfig of derive_lock.go: ParseLock,
--                         what WriteLock serializes, filterConfig, filterLock, excludedDepEdges; its
--                         proofs in Lock/Valid and Lock/Sorted
--   Workspace/Terminal    terminal.go: resolveTerminal, autoDetectTerminal, dfsTerminal, consumersOf; its
--                         proofs in Terminal/Reach, Detect and Resolve
--   Workspace/Derive      derive_lock.go: deriveLock and what WriteDerivedLockTo writes; its proofs in
--                         Derive/Valid
--   Workspace/Overrides   helpers.go: the overrides of a consumer's inputs, as flags and as the record of
--                         an apply; its proof in Overrides/Record
--   Workspace/Effective   flake_path.go, topo_alpha.go, effectiveLock of derive_lock.go, buildDAG of
--                         dag.go; its proofs in Effective/Covers and Effective/Orders
--   Workspace/Graph       graph.go: selectTerminal; its proof in Graph/Choice
--   Workspace/Publish     writeLockAtomic of derive_lock.go, with the system's calls and their failures as
--                         an argument; its proof in Publish/Atomic
--   Workspace/RunLock     rebuildlock.go: attemptLocks and acquireLocks as steps of runs at the same time,
--                         over flock's table as an interface; Attempt has an attempt in one piece and
--                         the waits, Plan the lock names and rebuildLockSteps; the proofs are in
--                         Exclusion and Attempt/Table
--   Workspace/Propagate   propagate.go: the relock of one repository's inputs, on its flake.lock in the
--                         commit, the index and the working tree; its proofs in Outcome and Synced
--   Workspace/Push        push.go: resolvePushRemote, relockSiblingsBeforePush and Push; its proofs in
--                         Push/Relocks, Push/Converges and Push/Sorted
--   Workspace/Rebase      rebase.go: syncDefault with its rollback and the walk of Rebase; its proofs in
--                         Rebase/Left
--
-- Mutate: the work tracking of pg-go-mutate-tui (modules/pg-go-mutate/pg-go-mutate-tui). Workers pop
-- files from a queue, run an analysis, append its outcome to a ledger and release the file; at the
-- same time a refill goroutine offers the files of packages whose hash the ledger does not have.
--   Mutate/Ledger         internal/ledger/ledger.go: Append, Replay, NeedsRun; its proofs in
--                         Ledger/Latest and Ledger/Appends
--   Mutate/Queue          internal/queue/queue.go: the methods of Queue
--   Mutate/Pool           internal/worker/worker.go (Run and the methods of Pool), Refill of queue.go
--                         and refillOnce of cmd/pg-go-mutate-tui/main.go, as steps of goroutines on one
--                         state; its proofs in Pool/Ownership and Pool/Fresh
--
-- Logs: what pg-nix-log-wrapped keeps of the activity log that nix writes
-- (modules/pg-nix-log-wrapped/internal). A tailer cuts the growing file into lines and hands them to
-- a handler, which writes the lines worth keeping; a run that was killed is filtered afterwards.
--   Logs/Retain           retain/retain.go and RetainDrop of nixlog/nixlog.go: Writer, Handler, Finalize
--   Logs/Buffer           the bufio.Writer below them: its 64 KiB, its flushes, and errors that it keeps
--   Logs/Tailer           tailer/tailer.go: consume and Poll
--   Logs/Agreement        the proof that both ways write the same file, if the disk does not fail
--   Logs/Nixlog           nixlog/nixlog.go: the processor that makes activities of nix's events. Text has
--                         its patterns, Fast the byte checks, Processor, Messages and Lines the methods,
--                         Totals Summary and FailureKind; its proofs in Accounts, Reported,
--                         Fast/Printed, Lines/Shortcut and Lines/Invariant
--   Logs/Logdir           logdir/logdir.go: pidOf, finalize and SweepWith on the entries of a directory;
--                         its proofs in Kept, Filtered and Bounded
--
-- Base has what they use: Go's maps as association lists, sets as lists of keys, `sort.Strings` as an
-- insertion sort, byte strings, and regular expressions with the matches that Go's package finds.
--
-- A map of Go has distinct keys; where that matters a theorem assumes it. The iteration order of a map
-- is the order of its list, and the results do not rest on it where the code sorts. The sort of dag.go
-- runs on fuel, one unit for each repository, and emits a repository in each round; the permutation
-- theorem shows that nothing is missing. The search of terminal.go has one unit of fuel more than there
-- are flakes, and a lack of fuel is a result of its own, which it is shown not to return. A `uint64`
-- is a number below 2 ^ 64 with its wrap-around written out. A directory is a function from names to
-- files, and a call to the system that fails, or a process that is killed, is a state after it.
-- A step of the pool is a critical section, a call out of the program or a read of shared state; the
-- schedule, the results of the analysis, what the disk does and what discovery finds are inputs.
--
-- Where runs compete for locks, the kernel's table is an interface that states what flock(2) promises, and
-- a run is a process of which each call is a step; any of them may stop or die. A push or a rebase goes
-- through the repositories with the answers of git and nix as inputs; of a repository there is its
-- flake.lock in the commit, the index and the working tree, the head, and the tip that is published. A
-- log directory is a list of entries, and each call on it may fail.
--
-- Not modelled: files, processes, git, nix and JSON or TOML text, which are inputs of the model; the
-- other commands of `pn`, the rest of pg-nix-log-wrapped and pjira; shell and Nix code.

pub mod Base
pub mod Workspace
pub mod Mutate
pub mod Logs
