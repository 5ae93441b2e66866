-- ===== src/FreeCad/Execute.antt =====
-- `execute` of freecad.py. An exception within the `try` ends in the handlers behind it, which get the
-- document, whether a transaction is open, and the diagnostic. A fresh `uuid4` is an argument.
use cadrig.Base.{◌+◌, Bool, true, false, Option, none, some, List, [], ◌∷◌, Result, ok, err, Error}
use cadrig.Json.{FloatOps}
use cadrig.Contracts.{Action, ActionPlan, Diagnostic, DocumentSnapshot}
use cadrig.Steps.{Step, done, failure, raised}
use cadrig.FreeCad.Host.{Host}
use cadrig.FreeCad.Objects.{snapshot}
use cadrig.FreeCad.Apply.{apply_action, recompute_and_inspect}
use cadrig.FreeCad.Receipts.{diagnostic}
use cadrig.FreeCad.Monad.{Cad, pure, answer, call, each, ◌>>=◌, ◌>>◌}

-- `str(exc)` and the like: the diagnostic of a step that did not end well
abbrev pub diagnosed : Error → Diagnostic
diagnosed e = diagnostic "FREECAD_ERROR"

-- `actions.pop(0)` for a new document
abbrev pub remaining_actions : Bool → List Action → List Action
remaining_actions false actions = actions
remaining_actions true [] = []
remaining_actions true (a ∷ actions) = actions

module _ {W Doc Obj : Type 0} (host : Host W Doc Obj) (ops : FloatOps) where
  abbrev pub run_actions : Doc → List Action → Cad W (Unit {0})
  run_actions d actions = each (apply_action host ops d) actions

  -- The actions, the inspection and the snapshot after them
  unfoldable pub perform : Doc → ActionPlan → Bool → Cad W DocumentSnapshot
  perform d plan created = do
    run_actions d (remaining_actions created plan.actions)
    recompute_and_inspect host ops d
    answer (λ w. snapshot host w d (plan.base_revision + 1))

  -- `closeDocument(document.Name)`
  abbrev pub close : Doc → Cad W (Unit {0})
  close d = call (λ w. host.close_document w (host.document_name w d))

  abbrev pub ignore_result : Doc → Cad W (Unit {0})
  ignore_result d = call (λ w. host.recompute w d) >>= λ result. pure tt

  abbrev pub discard : Doc → Bool → Cad W (Unit {0})
  discard d true = close d
  discard d false = ignore_result d

  abbrev pub abort_if : Bool → Doc → Cad W (Unit {0})
  abort_if true d = call (λ w. host.abort_transaction w d)
  abort_if false d = pure tt

  abbrev pub with_cleanup : Diagnostic → Step (Unit {0}) → List Diagnostic
  with_cleanup d (done u) = d ∷ []
  with_cleanup d (failure x) = d ∷ diagnostic "FREECAD_CLEANUP_ERROR" ∷ []
  with_cleanup d (raised e) = d ∷ diagnostic "FREECAD_CLEANUP_ERROR" ∷ []

  -- The cleanup behind the handlers: the diagnostics, with one more where the cleanup raises
  unfoldable pub clean_up : Doc → Bool → Bool → Diagnostic → W → List Diagnostic × W
  clean_up d transaction_open created problem w =
      let (s, v) = (abort_if transaction_open d >> discard d created) w in
      (with_cleanup problem s, v)

  -- How the `try` ends: with a snapshot of what was previewed or committed, or in a handler with the
  -- document, whether the transaction is open, and the diagnostic.
  pub data Attempted : Type 0 where
    previewed committed : DocumentSnapshot → Attempted
    failed : Doc → Bool → Diagnostic → Attempted
    not_created : Diagnostic → Attempted

  abbrev pub handled : Doc → Bool → Attempted → Step (Unit {0}) × W → Attempted × W
  handled d transaction_open next (done u, w) = (next, w)
  handled d transaction_open next (failure x, w) = (failed d transaction_open x, w)
  handled d transaction_open next (raised e, w) = (failed d transaction_open (diagnosed e), w)

  abbrev pub leave_preview : Doc → Bool → DocumentSnapshot → Step (Unit {0}) × W → Attempted × W
  leave_preview d created after (done u, w) =
      handled d false (previewed after) (discard d created w)
  leave_preview d created after (failure x, w) = (failed d true x, w)
  leave_preview d created after (raised e, w) = (failed d true (diagnosed e), w)

  -- What follows the snapshot: a preview is aborted, a change is committed.
  unfoldable pub conclude : Doc → Bool → Bool → Step DocumentSnapshot × W → Attempted × W
  conclude d created dry (failure x, w) = (failed d true x, w)
  conclude d created dry (raised e, w) = (failed d true (diagnosed e), w)
  conclude d created true (done after, w) =
      leave_preview d created after (call (λ v. host.abort_transaction v d) w)
  conclude d created false (done after, w) =
      handled d true (committed after) (call (λ v. host.commit_transaction v d) w)

  abbrev pub in_transaction : Doc → ActionPlan → Bool → Bool → Step (Unit {0}) × W → Attempted × W
  in_transaction d plan created dry (done u, w) = conclude d created dry (perform d plan created w)
  in_transaction d plan created dry (failure x, w) = (failed d false x, w)
  in_transaction d plan created dry (raised e, w) = (failed d false (diagnosed e), w)

  -- `document.openTransaction(f"CADRIG: {plan.plan_id}")` and what follows
  unfoldable pub transact : Doc → ActionPlan → Bool → Bool → W → Attempted × W
  transact d plan created dry w =
      in_transaction d plan created dry (call (λ v. host.open_transaction v d plan.plan_id) w)

  abbrev pub on_new : ActionPlan → Bool → Result Doc × W → Attempted × W
  on_new plan dry (ok d, w) = transact d plan true dry w
  on_new plan dry (err e, w) = (not_created (diagnosed e), w)

  -- The whole `try`
  unfoldable pub attempt : Option Doc → ActionPlan → Bool → W → Attempted × W
  attempt none plan dry w = on_new plan dry (host.new_document w plan.document_id)
  attempt (some d) plan dry w = transact d plan false dry w
