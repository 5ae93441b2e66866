-- ===== src/FreeCad/Methods.antt =====
-- The methods `validate` and `execute` of freecad.py as steps of the adapter's state.
use cadrig.Base.{
  String, Bool, true, false, Option, none, some, List, [], ◌∷◌, Result, ok, err, ◌>>=◌, eqb,
}
use cadrig.Base.Dict
use cadrig.Json.{FloatOps}
use cadrig.Contracts.{ActionPlan, Diagnostic, DocumentSnapshot, ExecutionReceipt, applied, dry_run}
use cadrig.Steps.{Step, done, failure, raised}
use cadrig.FreeCad.Host.{Host}
use cadrig.FreeCad.Validate
use cadrig.FreeCad.State.{Adapter, get_document, observe, fingerprint_of}
use cadrig.FreeCad.Receipts.{receipt, refusal, diagnostic}
use cadrig.FreeCad.Execute.{Attempted, previewed, committed, failed, not_created, attempt, clean_up}

-- `document is None`
abbrev pub is_missing {ℓ} : {A : Type ℓ} → Option A → Bool
is_missing none = true
is_missing (some d) = false

module _ {W Doc Obj : Type 0} (host : Host W Doc Obj) (ops : FloatOps) where
  abbrev pub validate_seen :
      ActionPlan → Result (Option DocumentSnapshot) × Adapter W → Step (List Diagnostic) × Adapter W
  validate_seen plan (err e, t) = (raised e, t)
  validate_seen plan (ok current, t) = (Validate.validate ops current plan, t)

  -- `validate(plan)`
  unfoldable pub validate : Adapter W → ActionPlan → Step (List Diagnostic) × Adapter W
  validate s plan = validate_seen plan (observe host s plan.document_id)

  -- The new entries of `_revisions` and `_undo` after a commit
  abbrev pub recorded :
      Adapter W → String → ActionPlan → Bool → DocumentSnapshot → ExecutionReceipt → Adapter W
  recorded s id plan created after r = record {
    world = s.world;
    revisions =
        Dict.put s.revisions plan.document_id
          (record { fingerprint = fingerprint_of host after; revision = after.revision });
    undo = Dict.put s.undo id (record {
      document_id = plan.document_id;
      expected_revision = after.revision;
      created_document = created;
      original_receipt = r;
    });
  }

  abbrev refused_after :
      Adapter W
      → String
      → ActionPlan
      → Option DocumentSnapshot
      → List Diagnostic × W
      → Result ExecutionReceipt × Adapter W
  refused_after s id plan before (diagnostics, w) =
      (ok (refusal id plan diagnostics before), record s { world = w })

  -- The receipt for the end of the `try`
  unfoldable pub settle :
      Adapter W
      → String
      → ActionPlan
      → Bool
      → Option DocumentSnapshot
      → Attempted host ops × W
      → Result ExecutionReceipt × Adapter W
  settle s id plan created before (previewed after, w) =
      (ok (receipt id plan.plan_id dry_run [] before (some after)), record s { world = w })
  settle s id plan created before (committed after, w) =
      let r = receipt id plan.plan_id applied [] before (some after) in
      (ok r, recorded (record s { world = w }) id plan created after r)
  settle s id plan created before (failed d transaction_open problem, w) =
      refused_after s id plan before (clean_up host ops d transaction_open created problem w)
  settle s id plan created before (not_created problem, w) =
      refused_after s id plan before (problem ∷ [], w)

  -- `not created_document and getattr(document, "UndoMode", 1) == 0`
  abbrev pub undo_disabled : W → Option Doc → Result Bool
  undo_disabled w none = ok false
  undo_disabled w (some d) = host.undo_mode w d >>= λ mode. ok (eqb mode 0)

  -- `not dry_run and` the test
  abbrev pub cannot_undo : Bool → W → Option Doc → Result Bool
  cannot_undo true w document = ok false
  cannot_undo false w document = undo_disabled w document

  -- A plan that validates
  unfoldable pub execute_valid :
      Adapter W
      → String
      → ActionPlan
      → Bool
      → Option DocumentSnapshot
      → Option Doc
      → Result ExecutionReceipt × Adapter W
  unfolding settle
  execute_valid s id plan dry before document = elim (cannot_undo dry s.world document) [
    | err e ↦ (err e, s)
    | ok true ↦ (ok (refusal id plan (diagnostic "UNDO_UNAVAILABLE" ∷ []) before), s)
    | ok false ↦
        settle s id plan (is_missing document) before (attempt host ops document plan dry s.world)
  ]

  abbrev pub with_document :
      Adapter W
      → String
      → ActionPlan
      → Bool
      → Option DocumentSnapshot
      → Result (Option Doc)
      → Result ExecutionReceipt × Adapter W
  with_document s id plan dry before (err e) = (err e, s)
  with_document s id plan dry before (ok document) = execute_valid s id plan dry before document

  -- What `execute` does with the diagnostics of the plan
  unfoldable pub execute_checked :
      Adapter W
      → String
      → ActionPlan
      → Bool
      → Option DocumentSnapshot
      → Step (List Diagnostic)
      → Result ExecutionReceipt × Adapter W
  unfolding execute_valid
  execute_checked s id plan dry before (done []) =
      with_document s id plan dry before (get_document host s.world plan.document_id)
  execute_checked s id plan dry before (done (d ∷ ds)) = (ok (refusal id plan (d ∷ ds) before), s)
  execute_checked s id plan dry before (failure d) = (ok (refusal id plan (d ∷ []) before), s)
  execute_checked s id plan dry before (raised e) = (err e, s)

  abbrev pub execute_validated :
      String
      → ActionPlan
      → Bool
      → Option DocumentSnapshot
      → Step (List Diagnostic) × Adapter W
      → Result ExecutionReceipt × Adapter W
  execute_validated id plan dry before (checked, t) = execute_checked t id plan dry before checked

  abbrev pub execute_seen :
      String
      → ActionPlan
      → Bool
      → Result (Option DocumentSnapshot) × Adapter W
      → Result ExecutionReceipt × Adapter W
  execute_seen id plan dry (err e, t) = (err e, t)
  execute_seen id plan dry (ok before, t) = execute_validated id plan dry before (validate t plan)

  -- `execute(plan, dry_run=dry)`
  unfoldable pub execute :
      Adapter W → String → ActionPlan → Bool → Result ExecutionReceipt × Adapter W
  unfolding validate execute_checked
  execute s id plan dry = execute_seen id plan dry (observe host s plan.document_id)
