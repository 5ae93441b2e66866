-- ===== src/FreeCad/Effects.antt =====
-- What a call of `execute` of the FreeCAD adapter leaves: its receipts, revisions and undo records.
use cadrig.Base.{
  ℕ, String, ◌≡◌, refl, ◌≢◌, inl, inr, Bool, true, false, Option, some, List, [], ◌∷◌, Result, ok,
  err, Error, arith, ◌∙◌, subst,
}
use cadrig.Json.{FloatOps}
use cadrig.Contracts.{
  ActionPlan, Diagnostic, DocumentSnapshot, ExecutionReceipt, applied, dry_run, refused, null_list,
}
use cadrig.Steps.{Step, done}
use cadrig.FreeCad.Host.{Host}
use cadrig.FreeCad.Validate
use cadrig.FreeCad.State.{Adapter, get_document, observe}
use cadrig.FreeCad.Receipts.{receipt, refusal}
use cadrig.FreeCad.Methods.{execute, execute_checked}
use cadrig.FreeCad.Observing.{undo-observe, world-observe, observe-err}
use cadrig.FreeCad.Executing.{
  Raises, in_checks, in_get, in_mode, Executed, raises, refuses, previews, commits, execute-cases,
  execute-checked, checked-Executed, noted_state, success,
}

module _ {W Doc Obj : Type 0} (host : Host W Doc Obj) (ops : FloatOps) where
  abbrev Call : Type 0
  Call = Result ExecutionReceipt × Adapter W

  module _ (id : String) (plan : ActionPlan) (dry : Bool) where
    unapplied :
        (t : Adapter W) (before : Option DocumentSnapshot) (checked : Step (List Diagnostic))
        (o : Call)
        → Executed host ops t id plan dry before checked o
        → ((r : ExecutionReceipt) → o.0 ≡ ok r → r.status ≢ applied)
        → (o.1.undo ≡ t.undo) × (o.1.revisions ≡ t.revisions)
    unapplied t before checked o (raises e _ c p) h = rw p (refl, refl)
    unapplied t before checked o (refuses d ds w _ p) h = rw p (refl, refl)
    unapplied t before checked o (previews after w _ y p) h = rw p (refl, refl)
    unapplied t before checked o (commits document after w _ v g e c p) h =
        absurd (h (success host ops t id plan dry before after) (rw p refl) refl)

    -- Unless it returns an applied receipt, `execute` writes no undo record, and the revisions are
    -- those that observing the document leaves.
    pub execute_unapplied :
        (s : Adapter W)
        → ((r : ExecutionReceipt) → (execute host ops s id plan dry).0 ≡ ok r → r.status ≢ applied)
        → ((execute host ops s id plan dry).1.undo ≡ s.undo)
          × ((execute host ops s id plan dry).1.revisions
              ≡ (observe host s plan.document_id).1.revisions)
    execute_unapplied s h = elim (execute-cases host ops s id plan dry) [
      | inl (e, p) ↦ rw p (undo-observe host s plan.document_id, refl)
      | inr (before, shown, x) ↦
          let t = noted_state host ops s id plan dry in
          let (u, v) =
            unapplied t before (Validate.validate ops before plan) (execute host ops s id plan dry)
              x h in
          (u ∙ undo-observe host s plan.document_id, v)
    ]

    -- How the three kinds of receipts look
    pub data Receipt (before : Option DocumentSnapshot) (r : ExecutionReceipt) : Type 0 where
      refused_receipt :
          r.status ≡ refused
          → null_list r.diagnostics ≡ false
          → r.before ≡ before
          → r.after ≡ before
          → Receipt before r
      preview_receipt :
          (after : DocumentSnapshot)
          → r.status ≡ dry_run
          → dry ≡ true
          → r.diagnostics ≡ []
          → r.before ≡ before
          → r.after ≡ some after
          → Receipt before r
      applied_receipt :
          (after : DocumentSnapshot)
          → r.status ≡ applied
          → dry ≡ false
          → r.diagnostics ≡ []
          → r.before ≡ before
          → r.after ≡ some after
          → Receipt before r

    -- The `UndoMode` of the document can be read, where it is read.
    abbrev pub HasMode : W → Type 0
    HasMode w =
        dry ≡ false
        → (d : Doc) → get_document host w plan.document_id ≡ ok (some d)
        → (mode : ℕ) × (host.undo_mode w d ≡ ok mode)

    not_raised :
        (s : Adapter W) (before : Option DocumentSnapshot) (ds : List Diagnostic) (e : Error)
        → (observe host s plan.document_id).0 ≡ ok before
        → HasMode s.world
        → ¬ Raises host ops (noted_state host ops s id plan dry) id plan dry before (done ds) e
    not_raised s before ds e shown readable (in_checks p) = cc
    not_raised s before ds e shown readable (in_mode d x p m) =
        let w = world-observe host s plan.document_id in
        let (mode, q) =
          readable x d (subst (λ w. get_document host w plan.document_id ≡ ok (some d)) w p) in
        let n : host.undo_mode s.world d ≡ err e = subst (λ w. host.undo_mode w d ≡ err e) w m in
        absurd (cc)
    not_raised s before ds e shown readable (in_get p) =
        let q : get_document host s.world plan.document_id ≡ err e =
          subst (λ w. get_document host w plan.document_id ≡ err e)
            (world-observe host s plan.document_id) p in
        let o = observe-err host s plan.document_id q in ground (arith, o, shown)

    receipted :
        (t : Adapter W) (before : Option DocumentSnapshot) (ds : List Diagnostic) (o : Call)
        → ((e : Error) → ¬ Raises host ops t id plan dry before (done ds) e)
        → Executed host ops t id plan dry before (done ds) o
        → (r : ExecutionReceipt) × (o.0 ≡ ok r) × Receipt before r
    receipted t before ds o h (raises e _ c p) = absurd (h e c)
    receipted t before ds o h (refuses d rest w _ p) =
        (refusal id plan (d ∷ rest) before, rw p refl, refused_receipt refl refl refl refl)
    receipted t before ds o h (previews after w _ y p) = (
      receipt id plan.plan_id dry_run [] before (some after),
      rw p refl,
      preview_receipt after refl y refl refl refl,
    )
    receipted t before ds o h (commits document after w _ v g e c p) = (
      success host ops t id plan dry before after,
      rw p refl,
      applied_receipt after refl e refl refl refl,
    )

    -- If the document is observed, the plan checked, and the document's `UndoMode` read without an
    -- exception, `execute` returns a receipt whatever the host raises from then on, in the transaction
    -- and in the cleanup: a refusal with a diagnostic, which shows the document as it
    -- was observed twice, or a preview or an applied change, without diagnostics, with the
    -- snapshot after it. Only a call with `dry_run` previews, and only one without it applies.
    pub execute-Receipt :
        (s : Adapter W) (before : Option DocumentSnapshot) (ds : List Diagnostic)
        → (observe host s plan.document_id).0 ≡ ok before
        → Validate.validate ops before plan ≡ done ds
        → HasMode s.world
        → (r : ExecutionReceipt) × ((execute host ops s id plan dry).0 ≡ ok r) × Receipt before r
    execute-Receipt s before ds shown valid readable =
        let t = noted_state host ops s id plan dry in
        rw (execute-checked host ops s id plan dry before t (λ i. (shown i, t)), valid)
          (receipted t before ds (execute_checked host ops t id plan dry before (done ds))
            (λ e. not_raised s before ds e shown readable)
            (checked-Executed host ops t id plan dry before (done ds)))
