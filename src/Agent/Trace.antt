-- ===== src/Agent/Trace.antt =====
-- src/cadrig/tracing.py. The payloads of the events are left out.
use cadrig.Base.{ℕ, String, List, [], ◌∷◌, ◌++◌, length}

pub data AgentPhase : Type 0 where
  observe_phase compile_phase plan_phase preflight_phase execute_phase verify_phase repair_phase
        commit_phase refuse_phase rollback_phase :
      AgentPhase

pub record TraceEvent : Type 0 where
  pub sequence : ℕ
  pub phase : AgentPhase
  pub status : String

-- `TraceBuilder.record(phase, status)`
unfoldable pub record_event : List TraceEvent → AgentPhase → String → List TraceEvent
record_event events phase status =
    events ++ (record { sequence = length events; phase = phase; status = status } ∷ [])
