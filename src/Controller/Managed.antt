-- ===== src/Controller/Managed.antt =====
-- internal/controller/managed.go: the leased path of Reconcile.
pub mod Types
pub mod Evidence
pub mod Executors
pub mod Run
pub mod Permitted
pub mod Once
pub mod Stale
pub mod Reported
pub mod Unreported
