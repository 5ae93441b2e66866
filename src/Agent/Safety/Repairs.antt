-- ===== src/Agent/Safety/Repairs.antt =====
-- The bound on the attempts of a run.
use cadrig.Base.{ℕ, zero, suc, ◌+◌, ◌≤◌, String, ◌≡◌, Bool, Option, arith}
use cadrig.Json.{FloatOps}
use cadrig.Contracts.{AdapterMetadata, DocumentSnapshot}
use cadrig.Design.{DesignContract}
use cadrig.Agent.Interface.{Engine}
use cadrig.Agent.Model.{Reply, ActionGraphContext, ContractContext}
use cadrig.Agent.Passes.{AgentRun, Loop, finished}
use cadrig.Agent.Run.{attempts_from, run_observed, run}
use cadrig.Agent.Safety.Attempts.{attempt-attempts}

module _ (E : Engine) (ops : FloatOps) (content_hash : DocumentSnapshot → String)
    (planner : ℕ → ActionGraphContext → Reply) (r : AgentRun) (t : E.State) where
  abbrev Within : ℕ → ℕ → Type 0
  Within n left = (n ≤ r.attempts) × (r.attempts ≤ n + left)

  module _ (contract : DesignContract) (snapshot : Option DocumentSnapshot)
      (metadata : AdapterMetadata) (a : String) (apply : Bool) where
    attempts_from-bounded :
        (left n : ℕ) (l : Loop E.State)
        → attempts_from E ops content_hash planner contract snapshot metadata a apply left n l
          ≡ finished r t
        → Within n left
    unfolding attempts_from
    attempts_from-bounded zero n l e = grind (arith, attempt-attempts)
    attempts_from-bounded (suc left) n l e =
        grind (arith, attempt-attempts, attempts_from-bounded left (suc n))

  module _ (compiler : ContractContext → Reply) (max_repairs : ℕ) where
    run_observed-bounded :
        (intent : String) (metadata : AdapterMetadata) (a document_id : String) (apply : Bool)
        (snapshot : Option DocumentSnapshot) (s : E.State)
        → run_observed E ops content_hash planner compiler max_repairs intent metadata a document_id
            apply snapshot s
          ≡ finished r t
        → Within 1 max_repairs
    unfolding run_observed
    run_observed-bounded intent metadata a document_id apply snapshot s e =
        grind (arith, attempts_from-bounded)

    -- A run that returns has made at least one attempt, and at most one more than `max_repairs`.
    pub run-bounded :
        (intent a document_id : String) (apply : Bool) (s : E.State)
        → run E ops content_hash planner compiler max_repairs intent a document_id apply s
          ≡ finished r t
        → (1 ≤ r.attempts) × (r.attempts ≤ max_repairs + 1)
    unfolding run
    run-bounded intent a document_id apply s e = grind (arith, run_observed-bounded)
