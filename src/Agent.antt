-- ===== src/Agent.antt =====
-- src/cadrig/native_agent.py and what it calls: the contract compiler, the action graph planner, the
-- trace and the execution engine. The models behind the compiler and the planner are parameters.
mod Trace
mod Interface
mod Model
mod Passes
mod Run
pub mod Safety
pub mod MemoryEngine
unfoldable pub use Trace.*
unfoldable pub use Interface.*
unfoldable pub use Model.*
unfoldable pub use Passes.*
unfoldable pub use Run.*
