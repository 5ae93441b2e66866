-- ===== src/Agent/Safety/Runs.antt =====
-- The theorems about whole runs.
use cadrig.Base.{
  ℕ, zero, suc, String, ◌≡◌, refl, subst, ◌≢◌, Bool, true, false, Option, [], Result, ok, err,
  Option-cases, inl, inr,
}
use cadrig.Json.{FloatOps}
use cadrig.Contracts.{AdapterMetadata, DocumentSnapshot}
use cadrig.Design.{DesignContract}
use cadrig.Agent.Trace.{record_event, observe_phase, repair_phase}
use cadrig.Agent.Interface.{Engine, IsLawful}
use cadrig.Agent.Model.{
  Reply, Proposal, proposed, rejected, crashed, ActionGraphContext, ContractContext, compile,
}
use cadrig.Agent.Passes.{
  AgentRun, committed, Loop, Pass, again, returned, raised, Outcome, finished, agent_error, escaped,
  attempt, final,
}
use cadrig.Agent.Run.{attempts_from, run_observed, run, find_adapter}
use cadrig.Agent.Safety.Passes.{Sound, Committed, SoundPass, attempt_sound}

module _ (E : Engine) (L : IsLawful E) (ops : FloatOps) (content_hash : DocumentSnapshot → String)
    (planner : ℕ → ActionGraphContext → Reply) where
  -- A run that returns is sound. One that raises leaves the documents as they were; an exception
  -- that the loop does not catch does so in a preview.
  abbrev pub SoundOutcome : E.State → String → Bool → Outcome E.State → Type 0
  SoundOutcome start a apply (finished run s) = Sound E L ops content_hash start a apply run s
  SoundOutcome start a apply (agent_error events s) = L.Same s start
  SoundOutcome start a apply (escaped e s) = apply ≡ false → L.Same s start

  module _ (start : E.State) (contract : DesignContract) (snapshot : Option DocumentSnapshot)
      (metadata : AdapterMetadata) (a : String) (apply : Bool) where
    abbrev loop_outcome : ℕ → ℕ → Loop E.State → Outcome E.State
    loop_outcome left n l =
        attempts_from E ops content_hash planner contract snapshot metadata a apply left n l

    abbrev pass : ℕ → Loop E.State → Pass E.State
    pass n l = attempt E ops content_hash planner contract snapshot metadata a apply n l

    last_pass_sound :
        (n : ℕ) (l : Loop E.State) (x : Pass E.State)
        → SoundPass E L ops content_hash start a apply x
        → pass n l ≡ x
        → SoundOutcome start a apply (loop_outcome zero n l)
    unfolding attempts_from
    last_pass_sound n l (raised e s) h p = rw (p, attempts_from) h
    last_pass_sound n l (returned run s) h p = rw (p, attempts_from) h
    last_pass_sound n l (again l') h p =
        rw (p, attempts_from) record { unchanged = λ _. h; evidence = λ c. absurd (cc) }

    next_pass_sound :
        (left n : ℕ) (l : Loop E.State) (x : Pass E.State)
        → ((l' : Loop E.State)
            → L.Same l'.state start
            → SoundOutcome start a apply (loop_outcome left (suc n) l'))
        → SoundPass E L ops content_hash start a apply x
        → pass n l ≡ x
        → SoundOutcome start a apply (loop_outcome (suc left) n l)
    unfolding attempts_from
    next_pass_sound left n l (raised e s) ih h p = rw (p, attempts_from) h
    next_pass_sound left n l (returned run s) ih h p = rw (p, attempts_from) h
    next_pass_sound left n l (again l') ih h p =
        rw (p, attempts_from)
          (ih (record l' { events = record_event l'.events repair_phase "requested" }) h)

    attempts_from_sound :
        (left n : ℕ) (l : Loop E.State)
        → L.Same l.state start
        → SoundOutcome start a apply (loop_outcome left n l)
    attempts_from_sound zero n l h =
        last_pass_sound n l (pass n l)
          (attempt_sound E L ops content_hash start contract a n planner snapshot metadata apply l
            h)
          refl
    attempts_from_sound (suc left) n l h =
        next_pass_sound left n l (pass n l) (λ l'. attempts_from_sound left (suc n) l')
          (attempt_sound E L ops content_hash start contract a n planner snapshot metadata apply l
            h)
          refl

  module _ (compiler : ContractContext → Reply) (max_repairs : ℕ) (intent a document_id : String)
      (apply : Bool) (s : E.State) where
    compiled_sound :
        (metadata : AdapterMetadata) (snapshot : Option DocumentSnapshot)
        (x : Proposal DesignContract)
        → (let context : ContractContext = record {
          intent = intent;
          document_id = document_id;
          snapshot = snapshot;
          adapter = metadata;
        } in
            compile context (compiler context))
          ≡ x
        → SoundOutcome s a apply (
            run_observed E ops content_hash planner compiler max_repairs intent metadata a
              document_id apply snapshot s)
    unfolding run_observed
    compiled_sound metadata snapshot (rejected e) p = rw (p, run_observed) (L.same_refl s)
    compiled_sound metadata snapshot (crashed e) p = rw (p, run_observed) (L.same_refl s)
    compiled_sound metadata snapshot (proposed contract) p =
        rw (p, run_observed)
          (attempts_from_sound s contract snapshot metadata a apply max_repairs 1 _ (L.same_refl s))

    -- Every run is sound: a run that returns with another status than `committed` leaves every
    -- document as it was, and a `committed` one was asked to apply, ran its plan on the documents as
    -- they were, and holds the receipt of that execution with the verifier's accepting report.
    -- `NativeAgentError` leaves the documents alone, and in a preview so does any other exception.
    pub run_sound :
        SoundOutcome s a apply
          (run E ops content_hash planner compiler max_repairs intent a document_id apply s)
    unfolding run
    run_sound = elim (Option-cases (find_adapter a (E.adapters s))) [
      | inl p ↦ rw (p, run) (L.same_refl s)
      | inr (metadata, p) ↦ rw (p, run) (observed metadata (E.observe s a document_id) refl)
    ]
      where
        observed :
            (metadata : AdapterMetadata) (o : Result (Option DocumentSnapshot))
            → E.observe s a document_id ≡ o
            → SoundOutcome s a apply (elim (E.observe s a document_id) [
              | err e ↦ agent_error (record_event [] observe_phase "failed") s
              | ok snapshot ↦
                  run_observed E ops content_hash planner compiler max_repairs intent metadata a
                    document_id apply snapshot s
            ])
        observed metadata (err e) p = rw p (L.same_refl s)
        observed metadata (ok snapshot) p = rw p (compiled_sound metadata snapshot _ refl)

    abbrev pub outcome : Outcome E.State
    outcome = run E ops content_hash planner compiler max_repairs intent a document_id apply s

    preview_cases :
        (o : Outcome E.State) → apply ≡ false → SoundOutcome s a apply o → L.Same (final o) s
    preview_cases (finished r t) e h = h.unchanged (λ c. absurd (cc ((h.evidence c).0)))
    preview_cases (agent_error events t) e h = h
    preview_cases (escaped x t) e h = h e

    -- Over an engine that keeps the adapters' promises, a preview leaves every document as it was, however it ends: with a run, with a
    -- `NativeAgentError` or with any other exception.
    pub run_preview : apply ≡ false → L.Same (final outcome) s
    run_preview e = preview_cases outcome e run_sound

    -- Over an engine that keeps the adapters' promises, a run that returns with another status than `committed` leaves every document as it was.
    pub run_uncommitted :
        (r : AgentRun) (t : E.State) → outcome ≡ finished r t → r.status ≢ committed → L.Same t s
    run_uncommitted r t e ne =
        let h : Sound E L ops content_hash s a apply r t =
          subst (SoundOutcome s a apply) e run_sound in
        h.unchanged ne

    -- Over an engine that keeps the adapters' promises, a run that returns `committed` holds a plan that ran on the documents as they were at the start,
    -- the receipt of that very execution, whose state is the one that is left, and a report of the
    -- verifier on the run's contract and that receipt, which accepts.
    pub run_committed :
        (r : AgentRun) (t : E.State)
        → outcome ≡ finished r t
        → r.status ≡ committed
        → Committed E L ops content_hash s a r t
    run_committed r t e c =
        let h : Sound E L ops content_hash s a apply r t =
          subst (SoundOutcome s a apply) e run_sound in
        (h.evidence c).1

    -- Over an engine that keeps the adapters' promises, only a run that was asked to apply ends as `committed`.
    pub run_committed-apply :
        (r : AgentRun) (t : E.State) → outcome ≡ finished r t → r.status ≡ committed → apply ≡ true
    run_committed-apply r t e c =
        let h : Sound E L ops content_hash s a apply r t =
          subst (SoundOutcome s a apply) e run_sound in
        (h.evidence c).0
