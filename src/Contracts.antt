-- ===== src/Contracts.antt =====
-- src/cadrig/contracts.py: action plans, document snapshots, receipts. The children define them;
-- `Parsing` and `RoundTrip` prove what `from_dict` and `to_dict` promise.
mod Kinds
mod Identifier
mod Payload
mod Plan
mod Snapshot
pub mod Parsing
pub mod RoundTrip
unfoldable pub use Kinds.*
unfoldable pub use Identifier.*
unfoldable pub use Payload.*
unfoldable pub use Plan.*
unfoldable pub use Snapshot.*
