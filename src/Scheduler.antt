-- ===== src/Scheduler.antt =====
-- src/cadrig/benchmarks/cadgenbench/scheduler.py: cohorts of tasks that run within a budget of tokens
-- and can be resumed. `Config`, `Usage` and `State` are its data, `Budget` the reservations, `Run` one
-- attempt, `Loop` the cohort; `Debits`, `Reconciliation` and `Safety` prove.
mod Config
mod Usage
mod State
mod Budget
mod Run
mod Loop
mod Debits
mod Reconciliation
pub mod Safety
unfoldable pub use Config.*
unfoldable pub use Usage.*
unfoldable pub use State.*
unfoldable pub use Budget.*
unfoldable pub use Run.*
unfoldable pub use Loop.*
