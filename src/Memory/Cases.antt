-- ===== src/Memory/Cases.antt =====
-- How a call of `execute` of the memory adapter can end: it raises, it refuses, or the plan goes
-- through. The proofs about it split on these cases.
use cadrig.Base.{
  ◌+◌, String, ◌≡◌, refl, ap, ◌⊎◌, inl, inr, Bool, true, false, Option, none, some, List, [], ◌∷◌,
  arith, Result, ok, err, Error, assertion_error, if◌then◌else◌,
}
use cadrig.Base.Dict
use cadrig.Base.Dict.{get-put}
use cadrig.Json.{FloatOps}
use cadrig.Contracts.{ActionPlan, Diagnostic, DocumentSnapshot, ExecutionReceipt, applied}
use cadrig.Memory.State.{Document, Kernel, snapshot, snapshot_opt}
use cadrig.Memory.Apply.{Step, done, failure, raised, apply_all}
use cadrig.Memory.Methods.{validate, execute, success, commit, refusal}

module _ (ops : FloatOps) (k : Kernel) (id : String) (plan : ActionPlan) where
  abbrev old_document : Option Document
  old_document = Dict.get k.documents plan.document_id

  -- The document that a plan commits.
  abbrev pub revised : Document → Document
  revised d = record d { revision = plan.base_revision + 1 }

  -- The facts of a plan that went through.
  pub record Success (dry : Bool) (o : Result ExecutionReceipt × Kernel) : Type 0 where
    pub document : Document
    pub before : Option DocumentSnapshot
    pub after : DocumentSnapshot
    pub before_eq : snapshot_opt old_document ≡ ok before
    pub valid : validate k plan ≡ []
    pub applies : apply_all ops plan.document_id old_document plan.actions ≡ done (some document)
    pub after_eq : snapshot (revised document) ≡ ok after
    pub outcome : o ≡ (
      ok (success id plan dry before after),
      if dry
          then k
          else commit k plan.document_id
              (revised document)
              old_document
              (success id plan dry before after),
    )

  pub record Refusal (o : Result ExecutionReceipt × Kernel) : Type 0 where
    pub first : Diagnostic
    pub others : List Diagnostic
    pub before : Option DocumentSnapshot
    pub before_eq : snapshot_opt old_document ≡ ok before
    pub outcome : o ≡ (ok (refusal id plan (first ∷ others) before), k)

  abbrev pub Executed : Bool → Result ExecutionReceipt × Kernel → Type 0
  Executed dry o = ((e : Error) × (o ≡ (err e, k))) ⊎ Refusal o ⊎ Success dry o

  module _ (dry : Bool) where
    snapshot_cases :
        (before : Option DocumentSnapshot) (d : Document) (s : Result DocumentSnapshot)
        → snapshot_opt old_document ≡ ok before
        → validate k plan ≡ []
        → apply_all ops plan.document_id old_document plan.actions ≡ done (some d)
        → snapshot (revised d) ≡ s
        → Executed dry (execute ops k id plan dry)
    unfolding execute
    snapshot_cases before d (err e) p q a s = inl (e, ground arith)
    snapshot_cases before d (ok after) p q a s = inr (
        inr record {
          document = d;
          before = before;
          after = after;
          before_eq = p;
          valid = q;
          applies = a;
          after_eq = s;
          outcome = ground arith;
        })

    step_cases :
        (before : Option DocumentSnapshot) (t : Step (Option Document))
        → snapshot_opt old_document ≡ ok before
        → validate k plan ≡ []
        → apply_all ops plan.document_id old_document plan.actions ≡ t
        → Executed dry (execute ops k id plan dry)
    unfolding execute
    step_cases before (raised e) p q a = inl (e, ground arith)
    step_cases before (failure d) p q a = inr (
        inl
          record { first = d; others = []; before = before; before_eq = p; outcome = ground arith })
    step_cases before (done none) p q a = inl (assertion_error, ground arith)
    step_cases before (done (some d)) p q a =
        snapshot_cases before d (snapshot (revised d)) p q a refl

    valid_cases :
        (before : Option DocumentSnapshot) (ds : List Diagnostic)
        → snapshot_opt old_document ≡ ok before
        → validate k plan ≡ ds
        → Executed dry (execute ops k id plan dry)
    unfolding execute
    valid_cases before [] p q =
        step_cases before (apply_all ops plan.document_id old_document plan.actions) p q refl
    valid_cases before (d ∷ ds) p q = inr (
        inl
          record { first = d; others = ds; before = before; before_eq = p; outcome = ground arith })

    before_cases :
        (s : Result (Option DocumentSnapshot))
        → snapshot_opt old_document ≡ s
        → Executed dry (execute ops k id plan dry)
    unfolding execute
    before_cases (err e) p = inl (e, ground arith)
    before_cases (ok before) p = valid_cases before (validate k plan) p refl

    -- Every call of `execute` raises, refuses, or goes through.
    pub execute_cases : Executed dry (execute ops k id plan dry)
    execute_cases = before_cases (snapshot_opt old_document) refl

  applied_cases :
      (dry : Bool) (o : Result ExecutionReceipt × Kernel) (r : ExecutionReceipt)
      → Executed dry o
      → o.0 ≡ ok r
      → r.status ≡ applied
      → (s : Success false o) × (success id plan false s.before s.after ≡ r)
  applied_cases dry o r (inl (e, p)) q a = absurd (cc)
  applied_cases dry o r (inr (inl f)) q a = absurd (ground (arith, f.outcome))
  applied_cases true o r (inr (inr s)) q a = absurd (ground (arith, s.outcome))
  applied_cases false o r (inr (inr s)) q a =
      (s, cc (ap (λ (x : Result ExecutionReceipt × Kernel). x.0) s.outcome))

  -- An applied receipt comes from a plan that went through, and was no preview.
  pub applied-Success :
      (dry : Bool) (r : ExecutionReceipt)
      → (execute ops k id plan dry).0 ≡ ok r
      → r.status ≡ applied
      → (s : Success false (execute ops k id plan dry)) × (success id plan false s.before s.after
          ≡ r)
  applied-Success dry r = applied_cases dry (execute ops k id plan dry) r (execute_cases dry)
