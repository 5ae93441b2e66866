-- ===== src/FreeCad.antt =====
-- src/cadrig/adapters/freecad.py: the adapter `FreeCADKernelAdapter` for FreeCAD's documents. FreeCAD
-- is the parameter `Host`. `Names`, `Parameters`, `Preflight` and `Validate` are the checks before a
-- change, `Monad`, `Objects`, `Sketches`, `Constraints` and `Apply` the actions on native objects,
-- `State`, `Receipts`, `Execute`, `Methods` and `Rollback` the adapter's methods; the others prove.
pub mod Names
pub mod Parameters
pub mod Preflight
pub mod Validate
pub mod Host
pub mod Monad
pub mod Objects
pub mod Sketches
pub mod Constraints
pub mod Apply
pub mod State
pub mod Receipts
pub mod Execute
pub mod Methods
pub mod Rollback
pub mod Naming
pub mod Scope
pub mod Accepting
pub mod Observing
pub mod Committing
pub mod Executing
pub mod Effects
pub mod Changes
pub mod Undoing
pub mod RoundTrip
