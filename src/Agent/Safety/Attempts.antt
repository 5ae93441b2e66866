-- ===== src/Agent/Safety/Attempts.antt =====
-- The number of attempts of a run.
use cadrig.Base.{ℕ, String, ◌≡◌, Bool, Option, List, arith}
use cadrig.Json.{FloatOps}
use cadrig.Contracts.{ActionPlan, AdapterMetadata, DocumentSnapshot, ExecutionReceipt}
use cadrig.Design.{DesignContract}
use cadrig.Verify.{VerificationReport}
use cadrig.Agent.Trace.{TraceEvent}
use cadrig.Agent.Interface.{Engine}
use cadrig.Agent.Model.{Reply, ActionGraphContext}
use cadrig.Agent.Passes.{
  AgentRun, Loop, returned, roll_back, commit_plan, preview_plan, preflight, attempt,
}

module _ (E : Engine) (ops : FloatOps) (content_hash : DocumentSnapshot → String) (n : ℕ)
    (run : AgentRun) (t : E.State) where
  roll_back-attempts :
      (contract : DesignContract) (a : String) (plan : ActionPlan) (receipt : ExecutionReceipt)
      (report : VerificationReport) (events : List TraceEvent) (s : E.State)
      → roll_back E ops content_hash contract a plan receipt report events n s ≡ returned run t
      → run.attempts ≡ n
  unfolding roll_back
  roll_back-attempts contract a plan receipt report events s e = ground arith

  commit_plan-attempts :
      (contract : DesignContract) (a : String) (plan : ActionPlan) (events : List TraceEvent)
      (s : E.State)
      → commit_plan E ops content_hash contract a plan n events s ≡ returned run t
      → run.attempts ≡ n
  unfolding commit_plan
  commit_plan-attempts contract a plan events s e = grind (arith, roll_back-attempts)

  preview_plan-attempts :
      (contract : DesignContract) (a : String) (apply : Bool) (plan : ActionPlan) (l : Loop E.State)
      → preview_plan E ops content_hash contract a apply plan n l ≡ returned run t
      → run.attempts ≡ n
  unfolding preview_plan
  preview_plan-attempts contract a apply plan l e = grind (arith, commit_plan-attempts)

  preflight-attempts :
      (contract : DesignContract) (a : String) (apply : Bool) (plan : ActionPlan) (l : Loop E.State)
      → preflight E ops content_hash contract a apply plan n l ≡ returned run t
      → run.attempts ≡ n
  unfolding preflight
  preflight-attempts contract a apply plan l e = grind (arith, preview_plan-attempts)

  pub attempt-attempts :
      (planner : ℕ → ActionGraphContext → Reply) (contract : DesignContract)
      (snapshot : Option DocumentSnapshot) (metadata : AdapterMetadata) (a : String) (apply : Bool)
      (l : Loop E.State)
      → attempt E ops content_hash planner contract snapshot metadata a apply n l ≡ returned run t
      → run.attempts ≡ n
  unfolding attempt
  attempt-attempts planner contract snapshot metadata a apply l e =
      grind (arith, preflight-attempts)
