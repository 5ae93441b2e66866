-- ===== src/Agent/Run.antt =====
-- `NativeCADAgent.run` of native_agent.py, without an episode store. One pass of its loop is
-- `attempt` of the module Passes; an exception that the loop does not catch is `escaped`.
use cadrig.Base.{
  ℕ, zero, suc, String, Bool, Option, none, some, List, [], ◌∷◌, ◌==◌, if◌then◌else◌, ok, err,
}
use cadrig.Json.{FloatOps}
use cadrig.Contracts.{AdapterMetadata, DocumentSnapshot}
use cadrig.Design.{DesignContract}
use cadrig.Agent.Trace.{observe_phase, compile_phase, repair_phase, refuse_phase, record_event}
use cadrig.Agent.Interface.{Engine}
use cadrig.Agent.Model.{
  Reply, proposed, rejected, crashed, ContractContext, compile, ActionGraphContext,
}
use cadrig.Agent.Passes.{
  refused_run, Loop, again, returned, raised, Outcome, finished, agent_error, escaped, attempt,
}

-- `next(item for item in adapters() if item.adapter_id == adapter_id)`
abbrev pub find_adapter : String → List AdapterMetadata → Option AdapterMetadata
find_adapter adapter_id [] = none
find_adapter adapter_id (m ∷ ms) =
    if m.adapter_id == adapter_id then some m else find_adapter adapter_id ms

module _ (E : Engine) (ops : FloatOps) (content_hash : DocumentSnapshot → String)
    (planner : ℕ → ActionGraphContext → Reply) where
  -- The loop with `left` passes after this one. The last pass that fails breaks out of it.
  unfoldable pub attempts_from :
      DesignContract
      → Option DocumentSnapshot
      → AdapterMetadata
      → String
      → Bool
      → ℕ
      → ℕ
      → Loop E.State
      → Outcome E.State
  unfolding attempt
  attempts_from contract snapshot metadata adapter_id apply zero attempts l =
      elim (attempt E ops content_hash planner contract snapshot metadata adapter_id apply attempts
        l) [
          | raised e s ↦ escaped e s
          | returned run s ↦ finished run s
          | again l' ↦
              finished
                (record {
                  status = refused_run;
                  contract = contract;
                  plan = l'.last_plan;
                  receipt = l'.last_receipt;
                  verification = l'.last_report;
                  events = record_event l'.events refuse_phase "repair_budget_exhausted";
                  attempts = attempts;
                  rollback_receipt = none;
                })
                l'.state
        ]
  attempts_from contract snapshot metadata adapter_id apply (suc left) attempts l =
      elim (attempt E ops content_hash planner contract snapshot metadata adapter_id apply attempts
        l) [
          | raised e s ↦ escaped e s
          | returned run s ↦ finished run s
          | again l' ↦
              attempts_from contract snapshot metadata adapter_id apply left (suc attempts)
                (record l' { events = record_event l'.events repair_phase "requested" })
        ]

  module _ (compiler : ContractContext → Reply) (max_repairs : ℕ) where
    -- From the observed document on.
    unfoldable pub run_observed :
        String
        → AdapterMetadata
        → String
        → String
        → Bool
        → Option DocumentSnapshot
        → E.State
        → Outcome E.State
    unfolding attempts_from
    run_observed intent metadata adapter_id document_id apply snapshot s =
        let events = record_event [] observe_phase "ok" in
        let context : ContractContext = record {
          intent = intent;
          document_id = document_id;
          snapshot = snapshot;
          adapter = metadata;
        } in
        elim (compile context (compiler context)) [
          | rejected x ↦ agent_error (record_event events compile_phase "failed") s
          | crashed e ↦ agent_error (record_event events compile_phase "failed") s
          | proposed contract ↦
              attempts_from contract snapshot metadata adapter_id apply max_repairs 1 (record {
                state = s;
                events = record_event events compile_phase "ok";
                feedback = [];
                last_plan = none;
                last_receipt = none;
                last_report = none;
              })
        ]

    -- `run(intent, adapter_id, document_id, apply)`
    unfoldable pub run : String → String → String → Bool → E.State → Outcome E.State
    unfolding run_observed
    run intent adapter_id document_id apply s = elim (find_adapter adapter_id (E.adapters s)) [
      | none ↦ agent_error (record_event [] observe_phase "failed") s
      | some metadata ↦ elim (E.observe s adapter_id document_id) [
        | err e ↦ agent_error (record_event [] observe_phase "failed") s
        | ok snapshot ↦ run_observed intent metadata adapter_id document_id apply snapshot s
      ]
    ]
