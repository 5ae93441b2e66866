-- ===== src/Memory.antt =====
-- src/cadrig/adapters/memory.py: the reference kernel adapter. `State` and `Apply` are its data and
-- the application of one action, `Methods` its methods; the other children prove.
mod State
mod Apply
mod Methods
mod Cases
pub mod Atomic
pub mod Rollback
pub mod History
unfoldable pub use State.*
unfoldable pub use Apply.*
unfoldable pub use Methods.*
