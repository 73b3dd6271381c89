-- ===== src/Mutate.antt =====
-- The mutation runner's work tracking (modules/pg-go-mutate/pg-go-mutate-tui/internal): the ledger,
-- the queue, and the worker pool with the refill goroutine beside it.
pub mod Ledger
pub mod Queue
pub mod Pool
mod Tests
