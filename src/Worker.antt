-- ===== src/Worker.antt =====
-- internal/worker/worker.go: a worker's session with a run.
pub mod Session
pub mod Identity
pub mod Takeover
