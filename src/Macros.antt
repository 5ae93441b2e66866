-- ===== src/Macros.antt =====
-- src/cadrig/macros.py: FreeCAD macros by a model. `Policy` is the static review, `Generation` the
-- artifacts that a model's reply gives, `Execution` the run of an approved macro; the others prove.
pub mod Policy
pub mod Generation
pub mod Execution
pub mod Review
pub mod Safety
pub mod Leftovers
