-- ===== src/Agent/Passes.antt =====
-- One pass of the loop of `NativeCADAgent.run` of native_agent.py: plan, preflight, preview, verify,
-- commit, verify again, and roll back. An exception that the loop does not catch ends the pass.
use cadrig.Base.{
  ℕ, String, Bool, true, false, Option, none, some, List, [], ◌∷◌, map, if◌then◌else◌, Error, ok,
  err,
}
use cadrig.Json.{FloatOps}
use cadrig.Contracts.{
  ActionPlan, AdapterMetadata, DocumentSnapshot, ExecutionReceipt, status_accepted, status_value,
}
use cadrig.Design.{DesignContract}
use cadrig.Verify.{VerificationReport, verify}
use cadrig.Agent.Trace.{
  TraceEvent, plan_phase, preflight_phase, execute_phase, verify_phase, commit_phase, refuse_phase,
  rollback_phase, record_event,
}
use cadrig.Agent.Interface.{Engine}
use cadrig.Agent.Model.{
  Reply, proposed, rejected, crashed, Feedback, graph_invalid, diagnosed, issued,
  ActionGraphContext, propose,
}

pub data AgentRunStatus : Type 0 where
  previewed committed refused_run rolled_back_run : AgentRunStatus

pub record AgentRun : Type 0 where
  pub status : AgentRunStatus
  pub contract : DesignContract
  pub plan : Option ActionPlan
  pub receipt : Option ExecutionReceipt
  pub verification : Option VerificationReport
  pub events : List TraceEvent
  pub attempts : ℕ
  pub rollback_receipt : Option ExecutionReceipt

-- The variables that the loop carries.
pub record Loop (State : Type 0) : Type 0 where
  pub state : State
  pub events : List TraceEvent
  pub feedback : List Feedback
  pub last_plan : Option ActionPlan
  pub last_receipt : Option ExecutionReceipt
  pub last_report : Option VerificationReport

-- A pass of the loop asks for a repair, returns a run, or lets an exception out.
pub data Pass (State : Type 0) : Type 0 where
  again : Loop State → Pass State
  returned : AgentRun → State → Pass State
  raised : Error → State → Pass State

-- How a run ends: a run object, `NativeAgentError` with the events of its trace, or another exception.
pub data Outcome (State : Type 0) : Type 0 where
  finished : AgentRun → State → Outcome State
  agent_error : List TraceEvent → State → Outcome State
  escaped : Error → State → Outcome State

-- The state that a run leaves.
abbrev pub final : {State : Type 0} → Outcome State → State
final (finished run s) = s
final (agent_error events s) = s
final (escaped e s) = s

abbrev pub verdict : Bool → String
verdict true = "accepted"
verdict false = "rejected"

module _ (E : Engine) (ops : FloatOps) (content_hash : DocumentSnapshot → String) where
  -- After the commit was verified and refused: the rollback, if the commit was accepted.
  unfoldable pub roll_back :
      DesignContract
      → String
      → ActionPlan
      → ExecutionReceipt
      → VerificationReport
      → List TraceEvent
      → ℕ
      → E.State
      → Pass E.State
  roll_back contract adapter_id plan receipt report events attempts s =
      elim (status_accepted receipt.status) [
        | false ↦
            returned
              (record {
                status = refused_run;
                contract = contract;
                plan = some plan;
                receipt = some receipt;
                verification = some report;
                events = record_event events refuse_phase "post_commit_verification_failed";
                attempts = attempts;
                rollback_receipt = none;
              })
              s
        | true ↦
            let (b, s') = E.rollback s adapter_id receipt.receipt_id in
            elim b [
              | err e ↦ raised e s'
              | ok rollback ↦
                  returned
                    (record {
                      status =
                          if status_accepted rollback.status then rolled_back_run else refused_run;
                      contract = contract;
                      plan = some plan;
                      receipt = some receipt;
                      verification = some report;
                      events =
                          record_event
                            (record_event events rollback_phase (status_value rollback.status))
                            refuse_phase "post_commit_verification_failed";
                      attempts = attempts;
                      rollback_receipt = some rollback;
                    })
                    s'
            ]
      ]

  -- The commit of a plan whose preview was verified, and its verification.
  unfoldable pub commit_plan :
      DesignContract → String → ActionPlan → ℕ → List TraceEvent → E.State → Pass E.State
  unfolding roll_back
  commit_plan contract adapter_id plan attempts events s =
      let (a, s') = E.execute s adapter_id plan false in
      elim a [
        | err e ↦ raised e s'
        | ok receipt ↦
            let events' =
              record_event events execute_phase
                (if status_accepted receipt.status then "applied" else "refused") in
            elim (verify ops content_hash contract receipt) [
              | err e ↦ raised e s'
              | ok report ↦
                  let events'' = record_event events' verify_phase (verdict report.accepted) in
                  elim report.accepted [
                    | true ↦
                        returned
                          (record {
                            status = committed;
                            contract = contract;
                            plan = some plan;
                            receipt = some receipt;
                            verification = some report;
                            events = record_event events'' commit_phase "committed";
                            attempts = attempts;
                            rollback_receipt = none;
                          })
                          s'
                    | false ↦ roll_back contract adapter_id plan receipt report events'' attempts s'
                  ]
            ]
      ]

  -- The preview of a plan that passed the preflight, and its verification.
  unfoldable pub preview_plan :
      DesignContract → String → Bool → ActionPlan → ℕ → Loop E.State → Pass E.State
  unfolding commit_plan
  preview_plan contract adapter_id apply plan attempts l =
      let (a, s') = E.execute l.state adapter_id plan true in
      elim a [
        | err e ↦ raised e s'
        | ok receipt ↦ elim (verify ops content_hash contract receipt) [
          | err e ↦ raised e s'
          | ok report ↦
              let events =
                record_event (record_event l.events execute_phase "preview") verify_phase
                  (verdict report.accepted) in
              elim report.accepted [
                | false ↦ again (record l {
                  state = s';
                  events = events;
                  feedback = map issued report.issues;
                  last_receipt = some receipt;
                  last_report = some report;
                })
                | true ↦ elim apply [
                  | false ↦
                      returned
                        (record {
                          status = previewed;
                          contract = contract;
                          plan = some plan;
                          receipt = some receipt;
                          verification = some report;
                          events = record_event events commit_phase "preview_only";
                          attempts = attempts;
                          rollback_receipt = none;
                        })
                        s'
                  | true ↦ commit_plan contract adapter_id plan attempts events s'
                ]
              ]
        ]
      ]

  -- The preflight of a proposed plan.
  unfoldable pub preflight :
      DesignContract → String → Bool → ActionPlan → ℕ → Loop E.State → Pass E.State
  unfolding preview_plan
  preflight contract adapter_id apply plan attempts l = elim (E.validate l.state adapter_id plan) [
    | err e ↦ raised e l.state
    | ok [] ↦
        preview_plan contract adapter_id apply plan attempts
          (record l { events = record_event l.events preflight_phase "ok" })
    | ok (d ∷ ds) ↦ again (record l {
      events = record_event l.events preflight_phase "failed";
      feedback = map diagnosed (d ∷ ds);
    })
  ]

  module _ (planner : ℕ → ActionGraphContext → Reply) where
    -- One pass of the loop; `attempts` is `attempt_index + 1`.
    unfoldable pub attempt :
        DesignContract
        → Option DocumentSnapshot
        → AdapterMetadata
        → String
        → Bool
        → ℕ
        → Loop E.State
        → Pass E.State
    unfolding preflight
    attempt contract snapshot metadata adapter_id apply attempts l =
        let context : ActionGraphContext = record {
          contract = contract;
          snapshot = snapshot;
          adapter = metadata;
          repair_feedback = l.feedback;
        } in
        elim (propose context (planner attempts context)) [
          | crashed e ↦ raised e l.state
          | rejected x ↦ again (record l {
            events = record_event l.events plan_phase "failed";
            feedback = graph_invalid x ∷ [];
          })
          | proposed plan ↦
              preflight contract adapter_id apply plan attempts
                (record l { events = record_event l.events plan_phase "ok"; last_plan = some plan })
        ]
