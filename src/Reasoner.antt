-- ===== src/Reasoner.antt =====
-- internal/reasoner: the normalized stream of a model turn, and the result that is collected from it.
pub mod Types
pub mod Stream
pub mod Collect
pub mod Requests
pub mod Turns
pub mod Finished
pub mod Requested
pub mod Agent
pub mod Transcript
