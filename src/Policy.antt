-- ===== src/Policy.antt =====
-- internal/policy: the rules of a policy, what they allow, and the paths inside a repository.
pub mod Types
pub mod Paths
pub mod Engine
pub mod Parse
pub mod Root
pub mod Permits
pub mod Decided
pub mod Parsed
pub mod Resolved
