-- ===== src/Memory/Atomic.antt =====
-- `execute` of the memory adapter applies a whole plan or nothing, and a preview shows the commit.
use cadrig.Base.{
  ℕ, ◌+◌, String, ◌≡◌, refl, ◌≢◌, inl, inr, Bool, true, false, Option, none, some, List, [], ◌∷◌,
  ◌++◌, arith, Result, ok, err, ◌==◌, if◌then◌else◌,
}
use cadrig.Base.Dict
use cadrig.Base.Dict.{get-put_ne}
use cadrig.Json.{FloatOps}
use cadrig.Contracts.{
  ActionPlan, DocumentSnapshot, ExecutionReceipt, applied, dry_run, status_accepted,
  document_snapshot, check_identifier,
}
use cadrig.Memory.State.{Document, Kernel, snapshot, observe}
use cadrig.Memory.Apply.{Step, done, failure, raised, apply_all}
use cadrig.Memory.Methods.{
  unsupported_diagnostics, stale_diagnostics, creation_diagnostics, validate, execute, finish,
  revision_of, success,
}
use cadrig.Memory.Cases.{Executed, execute_cases, revised}

append_nil_left {ℓ} : {A : Type ℓ} (xs ys : List A) → xs ++ ys ≡ [] → (xs ≡ []) × (ys ≡ [])
append_nil_left [] ys h = (refl, h)
append_nil_left (x ∷ xs) ys h = absurd (cc)

stale_diagnostics-nil : (m n : ℕ) → stale_diagnostics m n ≡ [] → m ≡ n
unfolding stale_diagnostics
stale_diagnostics-nil m n h = ground arith

-- A plan that validates was made for the revision that the document has.
pub validate-revision :
    (k : Kernel) (plan : ActionPlan)
    → validate k plan ≡ []
    → revision_of (Dict.get k.documents plan.document_id) ≡ plan.base_revision
unfolding validate
validate-revision k plan h =
    let document = Dict.get k.documents plan.document_id in
    let stale = stale_diagnostics (revision_of document) plan.base_revision in
    let creation = creation_diagnostics document plan.actions in
    let rest = (append_nil_left (unsupported_diagnostics plan.actions) (stale ++ creation) h).1 in
    stale_diagnostics-nil (revision_of document) plan.base_revision
      (append_nil_left stale creation rest).0

-- The revision of a snapshot is that of the document.
pub revision-snapshot :
    (d : Document) {s : DocumentSnapshot} → snapshot d ≡ ok s → s.revision ≡ d.revision
unfolding snapshot document_snapshot check_identifier
revision-snapshot d h = ground arith

-- A preview's receipt, as the commit of the same plan gives it.
abbrev pub as_preview : Result ExecutionReceipt → Result ExecutionReceipt
as_preview (err e) = err e
as_preview (ok r) = elim r.status [ applied ↦ ok (record r { status = dry_run }) | _ ↦ ok r ]

module _ (ops : FloatOps) (k : Kernel) (id : String) (plan : ActionPlan) where
  -- Without an applied receipt (a refusal, a preview or an exception) `execute` changes nothing.
  pub execute_atomic :
      (dry : Bool)
      → ((r : ExecutionReceipt) → (execute ops k id plan dry).0 ≡ ok r → r.status ≢ applied)
      → (execute ops k id plan dry).1 ≡ k
  execute_atomic true h = elim (execute_cases ops k id plan true) [
    | inl (e, p) ↦ rw p
    | inr (inl f) ↦ rw f.outcome
    | inr (inr s) ↦ rw s.outcome
  ]
  execute_atomic false h = elim (execute_cases ops k id plan false) [
    | inl (e, p) ↦ rw p
    | inr (inl f) ↦ rw f.outcome
    | inr (inr s) ↦ absurd (h (success id plan false s.before s.after) (rw s.outcome) refl)
  ]

  pub execute_preview : (execute ops k id plan true).1 ≡ k
  execute_preview = elim (execute_cases ops k id plan true) [
    | inl (e, p) ↦ rw p
    | inr (inl f) ↦ rw f.outcome
    | inr (inr s) ↦ rw s.outcome
  ]

  accepted_cases :
      (o : Result ExecutionReceipt × Kernel) (r : ExecutionReceipt)
      → Executed ops k id plan false o
      → o.0 ≡ ok r
      → status_accepted r.status ≡ true
      → (r.status ≡ applied) × (r.receipt_id ≡ id)
  accepted_cases o r (inl (e, p)) q a = absurd (cc)
  accepted_cases o r (inr (inl f)) q a = absurd (ground (arith, f.outcome))
  accepted_cases o r (inr (inr s)) q a = ground (arith, s.outcome)

  -- An accepted receipt of a call that is no preview is an applied one, under the call's id.
  pub execute-accepted :
      (r : ExecutionReceipt)
      → (execute ops k id plan false).0 ≡ ok r
      → status_accepted r.status ≡ true
      → (r.status ≡ applied) × (r.receipt_id ≡ id)
  execute-accepted r = accepted_cases _ r (execute_cases ops k id plan false)

  undo_cases :
      (dry : Bool) (o : Result ExecutionReceipt × Kernel) (j : String)
      → Executed ops k id plan dry o
      → id ≢ j
      → Dict.get o.1.undo j ≡ Dict.get k.undo j
  undo_cases dry o j (inl (e, p)) ne = rw p
  undo_cases dry o j (inr (inl f)) ne = rw f.outcome
  undo_cases true o j (inr (inr s)) ne = rw s.outcome
  undo_cases false o j (inr (inr s)) ne = rw s.outcome (get-put_ne k.undo id j _ ne)

  -- `execute` writes no undo record but under its own id.
  pub undo-execute :
      (dry : Bool) (j : String)
      → id ≢ j
      → Dict.get (execute ops k id plan dry).1.undo j ≡ Dict.get k.undo j
  undo-execute dry j = undo_cases dry _ j (execute_cases ops k id plan dry)

  -- An applied receipt describes the change.
  pub record Applied (o : Result ExecutionReceipt × Kernel) (r : ExecutionReceipt) : Type 0 where
    pub before_observed : observe k plan.document_id ≡ ok r.before
    pub after_observed : observe o.1 plan.document_id ≡ ok r.after
    pub expected : revision_of (Dict.get k.documents plan.document_id) ≡ plan.base_revision
    pub advanced : revision_of (Dict.get o.1.documents plan.document_id) ≡ plan.base_revision + 1
    -- What the actions give on the document as it was.
    pub performed : Document
    pub applies :
        apply_all ops plan.document_id (Dict.get k.documents plan.document_id) plan.actions
        ≡ done (some performed)
    pub valid : validate k plan ≡ []
    pub documents :
        (j : String)
        → Dict.get o.1.documents j ≡ (
            if plan.document_id == j
            then some (revised ops k id plan performed)
            else Dict.get k.documents j)
    pub no_diagnostics : r.diagnostics ≡ []

  finish-as_preview :
      (old : Option Document) (before : Option DocumentSnapshot) (s : Step (Option Document))
      → (finish k id plan true old before s).0 ≡ as_preview (finish k id plan false old before s).0
  unfolding finish
  finish-as_preview old before (failure d) = refl
  finish-as_preview old before (raised e) = refl
  finish-as_preview old before (done none) = refl
  finish-as_preview old before (done (some d)) = ground arith

  -- A preview has the receipt that the commit would have, with the status `dry_run`.
  pub execute-as_preview :
      (execute ops k id plan true).0 ≡ as_preview (execute ops k id plan false).0
  unfolding execute
  execute-as_preview = ground (
    arith,
    λ (b : Option DocumentSnapshot).
        finish-as_preview (Dict.get k.documents plan.document_id) b
          (apply_all ops plan.document_id (Dict.get k.documents plan.document_id) plan.actions),
  )
