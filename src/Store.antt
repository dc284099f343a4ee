-- ===== src/Store.antt =====
-- internal/store: the errors and results of an event store, and the store in memory.
pub mod Errors
pub mod Equality
pub mod Memory
pub mod Validation
