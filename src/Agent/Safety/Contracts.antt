-- ===== src/Agent/Safety/Contracts.antt =====
-- What a committed run says about the contract.
use cadrig.Base.{ℕ, String, ◌≡◌, Bool, some}
use cadrig.Json.{FloatOps}
use cadrig.Contracts.{DocumentSnapshot, ExecutionReceipt}
use cadrig.Verify.Acceptance.{Passes, verify-Passes}
use cadrig.Agent.Interface.{Engine, IsLawful}
use cadrig.Agent.Model.{Reply, ActionGraphContext, ContractContext}
use cadrig.Agent.Passes.{AgentRun, committed, finished}
use cadrig.Agent.Run.{run}
use cadrig.Agent.Safety.Runs.{run_committed}

-- Over an engine that keeps the adapters' promises, the receipt of a committed run is accepted, and every requirement and every invariant of the run's
-- contract is evaluated on it without an issue, whatever the models replied.
pub run_committed-Passes :
    (E : Engine) (L : IsLawful E) (ops : FloatOps) (content_hash : DocumentSnapshot → String)
    (planner : ℕ → ActionGraphContext → Reply) (compiler : ContractContext → Reply)
    (max_repairs : ℕ) (intent adapter_id document_id : String) (apply : Bool) (s : E.State)
    (r : AgentRun) (t : E.State)
    → run E ops content_hash planner compiler max_repairs intent adapter_id document_id apply s
      ≡ finished r t
    → r.status ≡ committed
    → (receipt : ExecutionReceipt) × (r.receipt ≡ some receipt)
      × Passes ops content_hash r.contract receipt
run_committed-Passes E L ops content_hash planner compiler max_repairs intent adapter_id document_id
      apply s r t e c =
    let h =
      run_committed E L ops content_hash planner compiler max_repairs intent adapter_id document_id
        apply s r t e c in
    (
      h.receipt,
      h.run_receipt,
      (verify-Passes ops content_hash r.contract h.receipt h.report h.verification).0 h.accepted,
    )
