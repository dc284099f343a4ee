-- ===== src/Examples.antt =====
-- Runs of the model at concrete inputs, and the theorems applied to them (internal/domain,
-- internal/store and internal/controller).
mod Agents
mod Fixtures
mod Journal
mod Leased
mod Counted
mod Leases
mod Lifecycle
mod Managed
mod Policies
mod Requests
mod Sessions
mod Turns
