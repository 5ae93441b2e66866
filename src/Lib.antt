-- ===== src/Lib.antt =====
-- CADRIG: a harness that turns an intent into a plan of typed CAD actions and lets a host run it only
-- as long as a verifier that no model controls accepts the result.
--
-- The parts and how they interact, with paths from the repository's root:
-- - Contracts is src/cadrig/contracts.py: identifiers, `Action` and `ActionPlan` with `from_dict` and
--   `to_dict`, `DocumentSnapshot`, `ExecutionReceipt`. Untrusted input is `Json` of the module Json, the
--   values that `json.loads` gives; `ContractError` and its messages are the values of Base.Errors.
-- - Design is src/cadrig/design_contracts.py: `DesignPredicate` and `DesignContract`.
-- - Verify is src/cadrig/verification.py: `ContractVerifier.verify` on a contract and a receipt.
-- - Memory is src/cadrig/adapters/memory.py: the reference adapter `MemoryKernelAdapter`. Its two
--   dictionaries are a `Kernel`; each method is a function on it that also returns the exception it
--   may raise. Ids from `uuid4` are arguments.
-- - FreeCad is src/cadrig/adapters/freecad.py: the adapter for FreeCAD's documents. FreeCAD's API is the
--   parameter `Host` over a state of the running program, whose calls may change the state and raise.
--   `observe`, `validate`, `execute` and `rollback` are functions on an `Adapter`: that state with the
--   revisions and the undo records. `_apply` and what it calls are computations of the small monad
--   `Cad`, in which what was written stays written when a call raises.
-- - Agent is src/cadrig/native_agent.py with action_graph.py, contract_compiler.py, tracing.py and
--   executor.py: `run` asks the compiler for a contract and the planner for plans, executes a plan as a
--   preview, verifies it, commits it, verifies again and rolls back what the verifier refuses.
--   The engine is the record `Engine` with what src/cadrig/adapters/base.py promises as `IsLawful`;
--   Agent.MemoryEngine fills both with the memory adapter. The replies of the language models are
--   functions that are arguments of the run: any reply at any attempt.
-- - Scheduler is src/cadrig/benchmarks/cadgenbench/scheduler.py: the state of a cohort with the debits of
--   its attempts, and the loop that reserves, runs, verifies and publishes the attempts of a task. The
--   result is the list of the states that are written to cohort.json, so that an interruption is a
--   prefix of it. What the baseline, the files and the verification of an attempt give is an argument.
-- - Macros is src/cadrig/macros.py: the review of a macro over the nodes of its syntax tree, the artifacts
--   that a model's reply gives, and the run of an approved macro over FreeCAD's API. Python's parser is
--   the parameter `Parser`, which gives a tree, a `SyntaxError` or another exception.
-- - Episodes is src/cadrig/episodes.py: what is redacted, where artifacts are copied, and how an episode
--   is written to a store of directories. Writing to the disk, which may raise, is the parameter `Writer`,
--   which also says what parts of a path name a drive; an artifact that is copied to a drive is taken to
--   land outside of the store.
-- - Registry is src/cadrig/registry.py: the adapters by id.
-- - Base holds what the others share, Tests the samples and the theorems at concrete inputs.
--
-- Floats: `Json.Float` is NaN or a place in the order of the floats, with the operations that the
-- program uses (conversion from an integer, distance, conversion back) as the parameter `FloatOps`.
-- Prices and costs are the parameter `Decimals`.
-- Integers are unbounded in Python and here. A dictionary is an association list in insertion order.
--
-- Loops run over lists, or over the attempts that `max_repairs` leaves, so no fuel is needed.
--
-- Left out: the FreeCAD workbench; the capture of artifacts and the selection of the FreeCAD adapter;
-- the command line and the HTTP client of the models; the other benchmark runners and geometry, which
-- start processes or call other libraries; the payloads of episodes; the loading of plugins; messages
-- of errors, prompts and payloads of trace events; and the adapter's lock, since the methods run one
-- at a time under it. `content_hash` is a parameter.
pub mod Base
pub mod Json
pub mod Contracts
pub mod Design
pub mod Verify
pub mod Memory
pub mod Episodes
pub mod Macros
pub mod FreeCad
pub mod Steps
pub mod Agent
pub mod Registry
pub mod Scheduler
mod Tests
