-- ===== src/Lease.antt =====
-- internal/lease: the authority of a worker over a run, in the tables of PostgreSQL.
pub mod Types
pub mod Manager
pub mod Receipts
pub mod Authority
pub mod Later
pub mod Evidence
pub mod Replay
pub mod Steps
