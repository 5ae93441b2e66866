-- ===== src/Agent/Safety.antt =====
-- What a run of the agent leaves in the documents, over any engine that keeps the adapters' promises
-- and whatever the models reply.
pub mod Passes
mod Attempts
pub mod Numbering
pub mod Traces
pub mod Repairs
pub mod Planners
pub mod Runs
pub mod Contracts
pub use Passes.*
