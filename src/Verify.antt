-- ===== src/Verify.antt =====
-- src/cadrig/verification.py: the contract verifier.
mod Equality
mod Verifier
pub mod Acceptance
pub mod Presence
unfoldable pub use Equality.*
unfoldable pub use Verifier.*
