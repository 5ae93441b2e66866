-- ===== src/Agent/Safety/Planners.antt =====
-- How often `NativeCADAgent.run` of native_agent.py asks its planner.
use cadrig.Base.{ℕ, zero, suc, ◌+◌, ◌≤◌, String, ◌≡◌, refl, Bool, Option, arith}
use cadrig.Json.{FloatOps}
use cadrig.Contracts.{AdapterMetadata, DocumentSnapshot}
use cadrig.Design.{DesignContract}
use cadrig.Agent.Interface.{Engine}
use cadrig.Agent.Model.{Reply, ActionGraphContext, ContractContext}
use cadrig.Agent.Passes.{Loop, attempt}
use cadrig.Agent.Run.{attempts_from, run_observed, run}

module _ (E : Engine) (ops : FloatOps) (content_hash : DocumentSnapshot → String)
    (f g : ℕ → ActionGraphContext → Reply) where
  -- The planners answer alike from the `n`-th attempt on, up to `left` attempts later.
  abbrev Alike : ℕ → ℕ → Type 0
  Alike n left = (m : ℕ) (c : ActionGraphContext) → n ≤ m → m ≤ n + left → f m c ≡ g m c

  module _ (contract : DesignContract) (snapshot : Option DocumentSnapshot)
      (metadata : AdapterMetadata) (a : String) (apply : Bool) where
    attempt_alike :
        (n : ℕ) (l : Loop E.State)
        → ((c : ActionGraphContext) → f n c ≡ g n c)
        → attempt E ops content_hash f contract snapshot metadata a apply n l
          ≡ attempt E ops content_hash g contract snapshot metadata a apply n l
    unfolding attempt
    attempt_alike n l h = rw (attempt, h) refl

    attempts_from-Alike :
        (left n : ℕ) (l : Loop E.State)
        → Alike n left
        → attempts_from E ops content_hash f contract snapshot metadata a apply left n l
          ≡ attempts_from E ops content_hash g contract snapshot metadata a apply left n l
    unfolding attempts_from
    attempts_from-Alike zero n l h =
        rw (attempts_from, attempt_alike n l (λ c. h n c (omega arith) (omega arith))) refl
    attempts_from-Alike (suc left) n l h = grind (
      arith,
      attempts_from-Alike left (suc n),
      attempt_alike n l (λ c. h n c (omega arith) (omega arith)),
    )

  module _ (compiler : ContractContext → Reply) (max_repairs : ℕ) where
    -- Two planners that answer alike in the first `max_repairs + 1` attempts give the same run: the
    -- planner is asked in no other attempt, whatever it would answer there.
    pub run_alike :
        (intent a document_id : String) (apply : Bool) (s : E.State)
        → ((m : ℕ) (c : ActionGraphContext) → 1 ≤ m → m ≤ max_repairs + 1 → f m c ≡ g m c)
        → run E ops content_hash f compiler max_repairs intent a document_id apply s
          ≡ run E ops content_hash g compiler max_repairs intent a document_id apply s
    unfolding run run_observed
    run_alike intent a document_id apply s h = grind (arith, attempts_from-Alike)
