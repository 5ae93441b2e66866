-- ===== src/Design.antt =====
-- src/cadrig/design_contracts.py: predicates, design contracts, and their parsers.
mod Predicates
mod Contract
unfoldable pub use Predicates.*
unfoldable pub use Contract.*
