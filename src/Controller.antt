-- ===== src/Controller.antt =====
-- internal/controller/controller.go: the requests of a caller, over an event store.
pub mod Exec
pub mod Requests
pub mod Reconcile
pub mod Keeps
pub mod Created
pub mod Desired
pub mod Writes
pub mod Managed
