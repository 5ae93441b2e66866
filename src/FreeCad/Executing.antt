-- ===== src/FreeCad/Executing.antt =====
-- `execute` of the FreeCAD adapter: its receipts, and what it leaves of revisions and undo records.
use cadrig.Base.{
  String, ◌≡◌, refl, subst, ◌⊎◌, inl, inr, Bool, true, false, Option, none, some, ℕ, eqb, ◌>>=◌,
  List, [], ◌∷◌, Result, ok, err, Error, Result-cases,
}
use cadrig.Json.{FloatOps}
use cadrig.Contracts.{ActionPlan, Diagnostic, DocumentSnapshot, ExecutionReceipt, applied, dry_run}
use cadrig.Steps.{Step, done, failure, raised}
use cadrig.FreeCad.Host.{Host}
use cadrig.FreeCad.Validate
use cadrig.FreeCad.State.{Adapter, get_document, observe}
use cadrig.FreeCad.Receipts.{receipt, refusal, diagnostic}
use cadrig.FreeCad.Execute.{
  Attempted, previewed, committed, failed, not_created, attempt, clean_up, with_cleanup, abort_if,
  discard,
}
use cadrig.FreeCad.Methods.{
  is_missing, recorded, settle, cannot_undo, with_document, execute_valid, execute_checked, execute,
  validate,
}
use cadrig.FreeCad.Observing.{observe_again}
use cadrig.FreeCad.Monad.{◌>>◌}
use cadrig.FreeCad.Committing.{Commit, attempt_committed, attempt_previewed}

module _ {W Doc Obj : Type 0} (host : Host W Doc Obj) (ops : FloatOps) where
  abbrev pub Outcome : Type 0
  Outcome = Result ExecutionReceipt × Adapter W

  mode_err : (r : Result ℕ) {e : Error} → (r >>= λ mode. ok (eqb mode 0)) ≡ err e → r ≡ err e
  mode_err (err x) h = cc
  mode_err (ok n) h = absurd (cc)

  with_cleanup_cons :
      (p : Diagnostic) (r : Step (Unit {0}))
      → (ds : List Diagnostic) × (with_cleanup host ops p r ≡ p ∷ ds)
  with_cleanup_cons p (done u) = ([], refl)
  with_cleanup_cons p (failure x) = (diagnostic "FREECAD_CLEANUP_ERROR" ∷ [], refl)
  with_cleanup_cons p (raised e) = (diagnostic "FREECAD_CLEANUP_ERROR" ∷ [], refl)

  module _ (s : Adapter W) (id : String) (plan : ActionPlan) (dry : Bool)
      (before : Option DocumentSnapshot) where
    -- The receipt of a commit
    abbrev pub success : DocumentSnapshot → ExecutionReceipt
    success after = receipt id plan.plan_id applied [] before (some after)

    -- What the code outside the `try` lets out: an exception of the checks, of `getDocument`, or of
    -- the reading of `UndoMode`, which only a call without `dry_run` does.
    pub data Raises (checked : Step (List Diagnostic)) (e : Error) : Type 0 where
      in_checks : checked ≡ raised e → Raises checked e
      in_get : get_document host s.world plan.document_id ≡ err e → Raises checked e
      in_mode :
          (d : Doc)
          → dry ≡ false
          → get_document host s.world plan.document_id ≡ ok (some d)
          → host.undo_mode s.world d ≡ err e
          → Raises checked e

    mode_raised :
        (document : Option Doc) (checked : Step (List Diagnostic)) (e : Error) (x : Bool)
        → dry ≡ x
        → get_document host s.world plan.document_id ≡ ok document
        → cannot_undo host ops x s.world document ≡ err e
        → Raises checked e
    mode_raised document checked e true y g h = absurd (cc)
    mode_raised none checked e false y g h = absurd (cc)
    mode_raised (some d) checked e false y g h =
        in_mode d y g (mode_err (host.undo_mode s.world d) h)

    -- How `execute` ends on an observed document with these diagnostics
    pub data Executed (checked : Step (List Diagnostic)) : Outcome → Type 0 where
      raises : (e : Error) (o : Outcome) → Raises checked e → o ≡ (err e, s) → Executed checked o
      refuses :
          (d : Diagnostic) (ds : List Diagnostic) (w : W) (o : Outcome)
          → o ≡ (ok (refusal id plan (d ∷ ds) before), record s { world = w })
          → Executed checked o
      previews :
          (after : DocumentSnapshot) (w : W) (o : Outcome)
          → dry ≡ true
          → o
            ≡ (ok (receipt id plan.plan_id dry_run [] before (some after)), record s { world = w })
          → Executed checked o
      commits :
          (document : Option Doc) (after : DocumentSnapshot) (w : W) (o : Outcome)
          → checked ≡ done []
          → get_document host s.world plan.document_id ≡ ok document
          → dry ≡ false
          → Commit host ops document plan s.world w after
          → o ≡ (
            ok (success after),
            recorded host ops
                (record s { world = w })
                id
                plan
                (is_missing document)
                after
                (success after),
          )
          → Executed checked o

    clean_up_cons :
        (d : Doc) (open_now created : Bool) (p : Diagnostic) (w : W)
        → (ds : List Diagnostic) × ((clean_up host ops d open_now created p w).0 ≡ p ∷ ds)
    unfolding clean_up
    clean_up_cons d open_now created p w =
        with_cleanup_cons p ((abort_if host ops open_now d >> discard host ops d created) w).0

    settled :
        (checked : Step (List Diagnostic)) (document : Option Doc)
        → checked ≡ done []
        → get_document host s.world plan.document_id ≡ ok document
        → (r : Attempted host ops × W) → attempt host ops document plan dry s.world ≡ r
        → Executed checked (settle host ops s id plan (is_missing document) before r)
    unfolding settle
    settled checked document v g (previewed after, w) a =
        previews after w _ (attempt_previewed host ops document plan dry s.world a) refl
    settled checked document v g (committed after, w) a =
        let (e, c) = attempt_committed host ops document plan dry s.world a in
        commits document after w _ v g e c refl
    settled checked document v g (failed d open_now p, w) a =
        let (ds, e) = clean_up_cons d open_now (is_missing document) p w in
        refuses p ds (clean_up host ops d open_now (is_missing document) p w).1 _ (rw e refl)
    settled checked document v g (not_created p, w) a = refuses p [] w _ refl

    valid_Executed :
        (checked : Step (List Diagnostic)) (document : Option Doc)
        → checked ≡ done []
        → get_document host s.world plan.document_id ≡ ok document
        → Executed checked (execute_valid host ops s id plan dry before document)
    unfolding execute_valid
    valid_Executed checked document v g =
        elim (Result-cases (cannot_undo host ops dry s.world document)) [
          | inl (e, h) ↦
              raises e _ (mode_raised document checked e dry refl g h) (rw (h, execute_valid) refl)
          | inr (true, h) ↦
              refuses (diagnostic "UNDO_UNAVAILABLE") [] s.world _ (rw (h, execute_valid) refl)
          | inr (false, h) ↦
              rw (h, execute_valid)
                (settled checked document v g (attempt host ops document plan dry s.world) refl)
        ]

    -- Each way in which the diagnostics let `execute` end
    pub checked-Executed :
        (checked : Step (List Diagnostic))
        → Executed checked (execute_checked host ops s id plan dry before checked)
    unfolding execute_checked
    checked-Executed (done []) = elim (Result-cases (get_document host s.world plan.document_id)) [
      | inl (e, g) ↦ raises e _ (in_get g) (rw (g, with_document) refl)
      | inr (document, g) ↦ rw (g, with_document) (valid_Executed (done []) document refl g)
    ]
    checked-Executed (done (d ∷ ds)) = refuses d ds s.world _ refl
    checked-Executed (failure d) = refuses d [] s.world _ refl
    checked-Executed (raised e) = raises e _ (in_checks refl) refl

  -- `validate` sees what `execute` has observed.
  validate-observed :
      (t : Adapter W) (plan : ActionPlan) (before : Option DocumentSnapshot)
      → observe host t plan.document_id ≡ (ok before, t)
      → validate host ops t plan ≡ (Validate.validate ops before plan, t)
  unfolding validate
  validate-observed t plan before p = rw (p, validate) refl

  module _ (s : Adapter W) (id : String) (plan : ActionPlan) (dry : Bool) where
    pub execute-checked :
        (before : Option DocumentSnapshot) (t : Adapter W)
        → observe host s plan.document_id ≡ (ok before, t)
        → execute host ops s id plan dry
          ≡ execute_checked host ops t id plan dry before (Validate.validate ops before plan)
    unfolding execute
    execute-checked before t p =
        let again : observe host t plan.document_id ≡ (ok before, t) =
          subst
            (λ (o : Result (Option DocumentSnapshot) × Adapter W).
              observe host o.1 plan.document_id ≡ o)
            p (observe_again host s plan.document_id) in
        rw (p, execute) (rw (validate-observed t plan before again) refl)

    pub execute-raised :
        (e : Error) (t : Adapter W)
        → observe host s plan.document_id ≡ (err e, t)
        → execute host ops s id plan dry ≡ (err e, t)
    unfolding execute
    execute-raised e t p = rw (p, execute) refl

    -- The state in which `execute` goes on: with what `observe` has noted
    abbrev pub noted_state : Adapter W
    noted_state = (observe host s plan.document_id).1

    -- `execute` on a document that `observe` shows, and otherwise
    pub execute-cases :
        ((e : Error) × (execute host ops s id plan dry ≡ (err e, noted_state)))
        ⊎ ((before : Option DocumentSnapshot) × ((observe host s plan.document_id).0 ≡ ok before)
            × Executed noted_state id plan dry before
                (Validate.validate ops before plan)
                (execute host ops s id plan dry))
    execute-cases = elim (Result-cases (observe host s plan.document_id).0) [
      | inl (e, h) ↦ inl (e, execute-raised e noted_state (λ i. (h i, noted_state)))
      | inr (before, h) ↦ inr (
        before,
        h,
        rw (execute-checked before noted_state (λ i. (h i, noted_state)))
            (checked-Executed noted_state id plan dry before (Validate.validate ops before plan)),
      )
    ]
