-- ===== src/Logs.antt =====
-- What pg-nix-log-wrapped keeps of nix's activity log (modules/pg-nix-log-wrapped/internal).
pub mod Buffer
pub mod Retain
pub mod Tailer
pub mod Logdir
pub mod Nixlog
mod Lines
mod Offline
mod Twins
mod Live
pub mod Agreement
mod Tests
