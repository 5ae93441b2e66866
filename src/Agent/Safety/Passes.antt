-- ===== src/Agent/Safety/Passes.antt =====
-- What one pass of the agent's loop leaves in the documents, over any engine that keeps the adapters' promises
-- and whatever the models reply.
use cadrig.Base.{
  ℕ, String, ◌≡◌, refl, ◌≢◌, Bool, true, false, Option, some, List, [], ◌∷◌, inl, inr, Bool-cases,
  Result, ok, err,
}
use cadrig.Json.{FloatOps}
use cadrig.Contracts.{
  ActionPlan, AdapterMetadata, Diagnostic, DocumentSnapshot, ExecutionReceipt, status_accepted,
}
use cadrig.Design.{DesignContract}
use cadrig.Verify.{VerificationReport, verify}
use cadrig.Agent.Trace.{TraceEvent, record_event, preflight_phase, plan_phase}
use cadrig.Agent.Interface.{Engine, IsLawful}
use cadrig.Agent.Model.{Reply, Proposal, proposed, rejected, crashed, ActionGraphContext, propose}
use cadrig.Agent.Passes.{
  AgentRun, committed, Loop, Pass, again, returned, raised, roll_back, commit_plan, preview_plan,
  preflight, attempt,
}

module _ (E : Engine) (L : IsLawful E) (ops : FloatOps)
    (content_hash : DocumentSnapshot → String) where
  -- The evidence for a commit: the plan ran on the documents as they were at the start, and the
  -- verifier accepted the receipt of that very execution.
  pub record Committed (start : E.State) (adapter_id : String) (run : AgentRun) (s : E.State)
      : Type 0 where
    pub from : E.State
    pub from_start : L.Same from start
    pub plan : ActionPlan
    pub receipt : ExecutionReceipt
    pub report : VerificationReport
    pub run_plan : run.plan ≡ some plan
    pub run_receipt : run.receipt ≡ some receipt
    pub run_report : run.verification ≡ some report
    pub execution : E.execute from adapter_id plan false ≡ (ok receipt, s)
    pub verification : verify ops content_hash run.contract receipt ≡ ok report
    pub accepted : report.accepted ≡ true

  pub record Sound (start : E.State) (adapter_id : String) (apply : Bool) (run : AgentRun)
      (s : E.State) : Type 0 where
    pub unchanged : run.status ≢ committed → L.Same s start
    pub evidence : run.status ≡ committed → (apply ≡ true) × Committed start adapter_id run s

  abbrev pub SoundPass : E.State → String → Bool → Pass E.State → Type 0
  SoundPass start a apply (again l) = L.Same l.state start
  SoundPass start a apply (returned run s) = Sound start a apply run s
  SoundPass start a apply (raised e s) = apply ≡ false → L.Same s start

  module _ (start : E.State) (contract : DesignContract) (a : String) (plan : ActionPlan)
      (attempts : ℕ) where
    roll_back_sound :
        (s : E.State) (receipt : ExecutionReceipt) (report : VerificationReport)
        (events : List TraceEvent)
        → L.Same s start
        → (E.execute s a plan false).0 ≡ ok receipt
        → SoundPass start a true (
            roll_back E ops content_hash contract a plan receipt report events attempts
              (E.execute s a plan false).1)
    unfolding roll_back
    roll_back_sound s receipt report events h e =
        elim (Bool-cases (status_accepted receipt.status)) [
          | inl f ↦
              let (b, p, q, same) = L.rollback_restores s a plan receipt e f in
              rw (f, roll_back)
                (rw (p, roll_back)
                  (rw (q, roll_back)
                    record {
                      unchanged = λ _. L.same_trans _ _ _ same h;
                      evidence = λ c. absurd (cc);
                    }))
          | inr f ↦
              rw (f, roll_back)
                record {
                  unchanged = λ _. L.same_trans _ _ _ (L.execute_refused s a plan receipt e f) h;
                  evidence = λ c. absurd (cc);
                }
        ]

    verified_sound :
        (s : E.State) (receipt : ExecutionReceipt) (v : Result VerificationReport)
        (events : List TraceEvent)
        → L.Same s start
        → (E.execute s a plan false).0 ≡ ok receipt
        → verify ops content_hash contract receipt ≡ v
        → SoundPass start a true (commit_plan E ops content_hash contract a plan attempts events s)
    unfolding commit_plan
    verified_sound s receipt (err e) events h p q =
        rw (p, commit_plan) (rw (q, commit_plan) (λ c. absurd (cc)))
    verified_sound s receipt (ok report) events h p q = elim (Bool-cases report.accepted) [
      | inl f ↦
          rw (p, commit_plan)
            (rw (q, commit_plan)
              (rw (f, commit_plan)
                record {
                  unchanged = λ c. absurd (c refl);
                  evidence = λ c. (
                    refl,
                    record {
                      from = s;
                      from_start = h;
                      plan = plan;
                      receipt = receipt;
                      report = report;
                      run_plan = refl;
                      run_receipt = refl;
                      run_report = refl;
                      execution = λ i. (p i, (E.execute s a plan false).1);
                      verification = q;
                      accepted = f;
                    },
                  );
                }))
      | inr f ↦
          rw (p, commit_plan)
            (rw (q, commit_plan) (rw (f, commit_plan) (roll_back_sound s receipt report _ h p)))
    ]

    executed_sound :
        (s : E.State) (r : Result ExecutionReceipt) (events : List TraceEvent)
        → L.Same s start
        → (E.execute s a plan false).0 ≡ r
        → SoundPass start a true (commit_plan E ops content_hash contract a plan attempts events s)
    unfolding commit_plan
    executed_sound s (err e) events h p = rw (p, commit_plan) (λ c. absurd (cc))
    executed_sound s (ok receipt) events h p =
        verified_sound s receipt (verify ops content_hash contract receipt) events h p refl

    commit_plan_sound :
        (s : E.State) (events : List TraceEvent)
        → L.Same s start
        → SoundPass start a true (commit_plan E ops content_hash contract a plan attempts events s)
    commit_plan_sound s events h = executed_sound s (E.execute s a plan false).0 events h refl

  module _ (start : E.State) (contract : DesignContract) (a : String) (plan : ActionPlan)
      (attempts : ℕ) (l : Loop E.State) (h : L.Same l.state start) where
    abbrev shown : E.State
    shown = (E.execute l.state a plan true).1

    preview_keeps : L.Same shown start
    preview_keeps = L.same_trans _ _ _ (L.execute_dry l.state a plan) h

    accepted_sound :
        (apply : Bool) (receipt : ExecutionReceipt) (report : VerificationReport)
        → (E.execute l.state a plan true).0 ≡ ok receipt
        → verify ops content_hash contract receipt ≡ ok report
        → report.accepted ≡ true
        → SoundPass start a apply (preview_plan E ops content_hash contract a apply plan attempts l)
    unfolding preview_plan
    accepted_sound false receipt report p q f =
        rw (p, preview_plan)
          (rw (q, preview_plan)
            (rw (f, preview_plan)
              record { unchanged = λ _. preview_keeps; evidence = λ c. absurd (cc) }))
    accepted_sound true receipt report p q f =
        rw (p, preview_plan)
          (rw (q, preview_plan)
            (rw (f, preview_plan)
              (commit_plan_sound start contract a plan attempts shown _ preview_keeps)))

    report_sound :
        (apply : Bool) (receipt : ExecutionReceipt) (v : Result VerificationReport)
        → (E.execute l.state a plan true).0 ≡ ok receipt
        → verify ops content_hash contract receipt ≡ v
        → SoundPass start a apply (preview_plan E ops content_hash contract a apply plan attempts l)
    unfolding preview_plan
    report_sound apply receipt (err e) p q =
        rw (p, preview_plan) (rw (q, preview_plan) (λ _. preview_keeps))
    report_sound apply receipt (ok report) p q = elim (Bool-cases report.accepted) [
      | inl f ↦ accepted_sound apply receipt report p q f
      | inr f ↦ rw (p, preview_plan) (rw (q, preview_plan) (rw (f, preview_plan) preview_keeps))
    ]

    receipt_sound :
        (apply : Bool) (r : Result ExecutionReceipt)
        → (E.execute l.state a plan true).0 ≡ r
        → SoundPass start a apply (preview_plan E ops content_hash contract a apply plan attempts l)
    unfolding preview_plan
    receipt_sound apply (err e) p = rw (p, preview_plan) (λ _. preview_keeps)
    receipt_sound apply (ok receipt) p =
        report_sound apply receipt (verify ops content_hash contract receipt) p refl

    preview_plan_sound :
        (apply : Bool)
        → SoundPass start a apply (preview_plan E ops content_hash contract a apply plan attempts l)
    preview_plan_sound apply = receipt_sound apply (E.execute l.state a plan true).0 refl

  module _ (start : E.State) (contract : DesignContract) (a : String) (attempts : ℕ) where
    diagnostics_sound :
        (apply : Bool) (plan : ActionPlan) (l : Loop E.State) (d : Result (List Diagnostic))
        → L.Same l.state start
        → E.validate l.state a plan ≡ d
        → SoundPass start a apply (preflight E ops content_hash contract a apply plan attempts l)
    unfolding preflight
    diagnostics_sound apply plan l (err e) h p = rw (p, preflight) (λ _. h)
    diagnostics_sound apply plan l (ok []) h p =
        rw (p, preflight)
          (preview_plan_sound start contract a plan attempts
            (record l { events = record_event l.events preflight_phase "ok" }) h apply)
    diagnostics_sound apply plan l (ok (d ∷ ds)) h p = rw (p, preflight) h

    module _ (planner : ℕ → ActionGraphContext → Reply) (snapshot : Option DocumentSnapshot)
        (metadata : AdapterMetadata) where
      abbrev pub context_of : Loop E.State → ActionGraphContext
      context_of l = record {
        contract = contract;
        snapshot = snapshot;
        adapter = metadata;
        repair_feedback = l.feedback;
      }

      proposal_sound :
          (apply : Bool) (l : Loop E.State) (x : Proposal ActionPlan)
          → L.Same l.state start
          → propose (context_of l) (planner attempts (context_of l)) ≡ x
          → SoundPass start a apply
              (attempt E ops content_hash planner contract snapshot metadata a apply attempts l)
      unfolding attempt
      proposal_sound apply l (crashed e) h p = rw (p, attempt) (λ _. h)
      proposal_sound apply l (rejected x) h p = rw (p, attempt) h
      proposal_sound apply l (proposed plan) h p =
          rw (p, attempt)
            (diagnostics_sound apply plan
              (record l { events = record_event l.events plan_phase "ok"; last_plan = some plan })
              (E.validate l.state a plan) h refl)

      pub attempt_sound :
          (apply : Bool) (l : Loop E.State)
          → L.Same l.state start
          → SoundPass start a apply
              (attempt E ops content_hash planner contract snapshot metadata a apply attempts l)
      attempt_sound apply l h =
          proposal_sound apply l (propose (context_of l) (planner attempts (context_of l))) h refl
