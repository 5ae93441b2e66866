-- ===== src/Agent/Safety/Traces.antt =====
-- The trace of a whole run.
use cadrig.Base.{ℕ, zero, suc, String, ◌≡◌, Bool, true, Option, arith}
use cadrig.Json.{FloatOps}
use cadrig.Contracts.{AdapterMetadata, DocumentSnapshot}
use cadrig.Design.{DesignContract}
use cadrig.Agent.Interface.{Engine}
use cadrig.Agent.Model.{Reply, ActionGraphContext, ContractContext}
use cadrig.Agent.Passes.{AgentRun, Loop, finished}
use cadrig.Agent.Run.{attempts_from, run_observed, run}
use cadrig.Agent.Safety.Numbering.{is_numbered, numbered_record, attempt-numbered, attempt-again}

module _ (E : Engine) (ops : FloatOps) (content_hash : DocumentSnapshot → String)
    (planner : ℕ → ActionGraphContext → Reply) (r : AgentRun) (t : E.State) where
  attempts_from-numbered :
      (contract : DesignContract) (snapshot : Option DocumentSnapshot) (metadata : AdapterMetadata)
      (a : String) (apply : Bool) (left n : ℕ) (l : Loop E.State)
      → is_numbered 0 l.events ≡ true
      → attempts_from E ops content_hash planner contract snapshot metadata a apply left n l
        ≡ finished r t
      → is_numbered 0 r.events ≡ true
  unfolding attempts_from
  attempts_from-numbered contract snapshot metadata a apply zero n l h e =
      grind (arith, numbered_record, attempt-numbered, attempt-again)
  attempts_from-numbered contract snapshot metadata a apply (suc left) n l h e = grind (
    arith,
    numbered_record,
    attempt-numbered,
    attempt-again,
    attempts_from-numbered contract snapshot metadata a apply left (suc n),
  )

  module _ (compiler : ContractContext → Reply) (max_repairs : ℕ) where
    run_observed-numbered :
        (intent : String) (metadata : AdapterMetadata) (a document_id : String) (apply : Bool)
        (snapshot : Option DocumentSnapshot) (s : E.State)
        → run_observed E ops content_hash planner compiler max_repairs intent metadata a document_id
            apply snapshot s
          ≡ finished r t
        → is_numbered 0 r.events ≡ true
    unfolding run_observed is_numbered
    run_observed-numbered intent metadata a document_id apply snapshot s e =
        grind (arith, numbered_record, attempts_from-numbered)

    -- The events of a run that returns are numbered from 0 on without a gap.
    pub run-numbered :
        (intent a document_id : String) (apply : Bool) (s : E.State)
        → run E ops content_hash planner compiler max_repairs intent a document_id apply s
          ≡ finished r t
        → is_numbered 0 r.events ≡ true
    unfolding run
    run-numbered intent a document_id apply s e = grind (arith, run_observed-numbered)
