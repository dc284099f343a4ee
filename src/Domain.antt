-- ===== src/Domain.antt =====
-- internal/domain.
pub mod Types
pub mod Transition
pub mod Decide
pub mod Desired
pub mod Managed
pub mod Apply
pub mod Reduce
pub mod Receipt
pub mod Lifecycle
