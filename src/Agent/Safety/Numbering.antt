-- ===== src/Agent/Safety/Numbering.antt =====
-- The sequence numbers of the events of a run.
use cadrig.Base.{
  ℕ, suc, ◌+◌, String, ◌≡◌, ◌≢◌, Bool, true, ◌&&◌, eqb, Option, List, [], ◌∷◌, ◌++◌, length, arith,
}
use cadrig.Json.{FloatOps}
use cadrig.Contracts.{ActionPlan, AdapterMetadata, DocumentSnapshot, ExecutionReceipt}
use cadrig.Design.{DesignContract}
use cadrig.Verify.{VerificationReport}
use cadrig.Agent.Trace.{TraceEvent, AgentPhase, record_event}
use cadrig.Agent.Interface.{Engine}
use cadrig.Agent.Model.{Reply, ActionGraphContext}
use cadrig.Agent.Passes.{
  AgentRun, Loop, again, returned, roll_back, commit_plan, preview_plan, preflight, attempt,
}

-- The events are numbered from `n` on.
unfoldable pub is_numbered : ℕ → List TraceEvent → Bool
is_numbered n [] = true
is_numbered n (e ∷ es) = eqb e.sequence n && is_numbered (suc n) es

numbered_snoc :
    (n : ℕ) (es : List TraceEvent) (e : TraceEvent)
    → is_numbered n es ≡ true
    → e.sequence ≡ n + length es
    → is_numbered n (es ++ (e ∷ [])) ≡ true
unfolding is_numbered
numbered_snoc n [] e h p = ground arith
numbered_snoc n (d ∷ es) e h p = grind (arith, numbered_snoc (suc n) es e)

pub numbered_record :
    (es : List TraceEvent) (phase : AgentPhase) (status : String)
    → is_numbered 0 es ≡ true
    → is_numbered 0 (record_event es phase status) ≡ true
unfolding record_event
numbered_record es phase status h = numbered_snoc 0 es _ h (omega arith)

module _ (E : Engine) (ops : FloatOps) (content_hash : DocumentSnapshot → String) (n : ℕ)
    (run : AgentRun) (t : E.State) where
  roll_back-numbered :
      (contract : DesignContract) (a : String) (plan : ActionPlan) (receipt : ExecutionReceipt)
      (report : VerificationReport) (events : List TraceEvent) (s : E.State)
      → is_numbered 0 events ≡ true
      → roll_back E ops content_hash contract a plan receipt report events n s ≡ returned run t
      → is_numbered 0 run.events ≡ true
  unfolding roll_back
  roll_back-numbered contract a plan receipt report events s h e = grind (arith, numbered_record)

  commit_plan-numbered :
      (contract : DesignContract) (a : String) (plan : ActionPlan) (events : List TraceEvent)
      (s : E.State)
      → is_numbered 0 events ≡ true
      → commit_plan E ops content_hash contract a plan n events s ≡ returned run t
      → is_numbered 0 run.events ≡ true
  unfolding commit_plan
  commit_plan-numbered contract a plan events s h e =
      grind (arith, numbered_record, roll_back-numbered)

  preview_plan-numbered :
      (contract : DesignContract) (a : String) (apply : Bool) (plan : ActionPlan) (l : Loop E.State)
      → is_numbered 0 l.events ≡ true
      → preview_plan E ops content_hash contract a apply plan n l ≡ returned run t
      → is_numbered 0 run.events ≡ true
  unfolding preview_plan
  preview_plan-numbered contract a apply plan l h e =
      grind (arith, numbered_record, commit_plan-numbered)

  preflight-numbered :
      (contract : DesignContract) (a : String) (apply : Bool) (plan : ActionPlan) (l : Loop E.State)
      → is_numbered 0 l.events ≡ true
      → preflight E ops content_hash contract a apply plan n l ≡ returned run t
      → is_numbered 0 run.events ≡ true
  unfolding preflight
  preflight-numbered contract a apply plan l h e =
      grind (arith, numbered_record, preview_plan-numbered)

  pub attempt-numbered :
      (planner : ℕ → ActionGraphContext → Reply) (contract : DesignContract)
      (snapshot : Option DocumentSnapshot) (metadata : AdapterMetadata) (a : String) (apply : Bool)
      (l : Loop E.State)
      → is_numbered 0 l.events ≡ true
      → attempt E ops content_hash planner contract snapshot metadata a apply n l ≡ returned run t
      → is_numbered 0 run.events ≡ true
  unfolding attempt
  attempt-numbered planner contract snapshot metadata a apply l h e =
      grind (arith, numbered_record, preflight-numbered)

module _ (E : Engine) (ops : FloatOps) (content_hash : DocumentSnapshot → String) (n : ℕ)
    (next : Loop E.State) where
  commit_plan-again :
      (contract : DesignContract) (a : String) (plan : ActionPlan) (events : List TraceEvent)
      (s : E.State)
      → commit_plan E ops content_hash contract a plan n events s ≢ again next
  unfolding commit_plan roll_back
  commit_plan-again contract a plan events s e = ground arith

  preview_plan-again :
      (contract : DesignContract) (a : String) (apply : Bool) (plan : ActionPlan) (l : Loop E.State)
      → is_numbered 0 l.events ≡ true
      → preview_plan E ops content_hash contract a apply plan n l ≡ again next
      → is_numbered 0 next.events ≡ true
  unfolding preview_plan
  preview_plan-again contract a apply plan l h e = grind (arith, numbered_record, commit_plan-again)

  preflight-again :
      (contract : DesignContract) (a : String) (apply : Bool) (plan : ActionPlan) (l : Loop E.State)
      → is_numbered 0 l.events ≡ true
      → preflight E ops content_hash contract a apply plan n l ≡ again next
      → is_numbered 0 next.events ≡ true
  unfolding preflight
  preflight-again contract a apply plan l h e = grind (arith, numbered_record, preview_plan-again)

  pub attempt-again :
      (planner : ℕ → ActionGraphContext → Reply) (contract : DesignContract)
      (snapshot : Option DocumentSnapshot) (metadata : AdapterMetadata) (a : String) (apply : Bool)
      (l : Loop E.State)
      → is_numbered 0 l.events ≡ true
      → attempt E ops content_hash planner contract snapshot metadata a apply n l ≡ again next
      → is_numbered 0 next.events ≡ true
  unfolding attempt
  attempt-again planner contract snapshot metadata a apply l h e =
      grind (arith, numbered_record, preflight-again)
