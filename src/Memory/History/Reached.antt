-- ===== src/Memory/History/Reached.antt =====
-- The kernels that calls of `execute` and `rollback` reach, in any order, and what holds in them.
use cadrig.Base.{
  ℕ, ◌+◌, String, ◌≡◌, refl, sym, ap, ◌∙◌, ◌⊎◌, inl, inr, Bool, true, false, Option, none, arith,
  eq_iff, Result, ok, Option-cases,
}
use cadrig.Base.Dict
use cadrig.Base.Dict.{
  Dict, get-put, get-remove, get-empty, get-put_self, get-put_ne, get-remove_self, get-remove_ne,
}
use cadrig.Json.{FloatOps}
use cadrig.Contracts.{ActionPlan, DocumentSnapshot, ExecutionReceipt}
use cadrig.Memory.State.{Document, Kernel, UndoRecord, new_kernel, snapshot_opt, observe}
use cadrig.Memory.Methods.{execute, rollback, success}
use cadrig.Memory.Cases.{Success, execute_cases, revised}
use cadrig.Memory.Atomic.{validate-revision}
use cadrig.Memory.History.Linked.{Linked}
use cadrig.Memory.History.Commits.{commit-Linked}
use cadrig.Memory.History.Restores.{restore-Linked}
use text.Mathlib.TextPositions.{eq_refl}
use cadrig.Memory.History.Rollbacks.{Restored, Refused, rollback_cases}

-- Each `execute` has a receipt id that no undo record has, as `uuid4` gives it.
pub data Reached : Kernel → Type 0 where
  start : Reached new_kernel
  executed :
      (ops : FloatOps) (k : Kernel) (id : String) (plan : ActionPlan) (dry : Bool)
      → Reached k
      → Dict.get k.undo id ≡ none
      → Reached (execute ops k id plan dry).1
  undone : (k : Kernel) (id' id : String) → Reached k → Reached (rollback k id' id).1

new_kernel-Linked : Linked new_kernel
new_kernel-Linked = record {
  older = λ id r m. absurd (cc (get-empty {V = UndoRecord} id));
  unique = λ id id' r r' m m' e f. absurd (cc (get-empty {V = UndoRecord} id));
  current = λ id r d m e f. absurd (cc (get-empty {V = UndoRecord} id));
  linked = λ id id' r r' m m' e f. absurd (cc (get-empty {V = UndoRecord} id));
  stepped = λ id r m. absurd (cc (get-empty {V = UndoRecord} id));
  replaced = λ id r m. absurd (cc (get-empty {V = UndoRecord} id));
  observed = λ j d e. absurd (cc (get-empty {V = Document} j));
}

Success-Linked :
    (ops : FloatOps) (k : Kernel) (id : String) (plan : ActionPlan) (dry : Bool)
    (o : Result ExecutionReceipt × Kernel)
    → Linked k
    → Dict.get k.undo id ≡ none
    → Success ops k id plan dry o
    → Linked o.1
unfolding snapshot_opt
Success-Linked ops k id plan true o h fresh s = rw s.outcome h
Success-Linked ops k id plan false o h fresh s = rw s.outcome (
    commit-Linked k plan.document_id (revised ops k id plan s.document)
      (success id plan false s.before s.after) fresh
      (ap (λ (n : ℕ). n + 1) (sym (validate-revision k plan s.valid))) (rw s.after_eq) s.before_eq
      h)

execute-Linked :
    (ops : FloatOps) (k : Kernel) (id : String) (plan : ActionPlan) (dry : Bool)
    → Linked k
    → Dict.get k.undo id ≡ none
    → Linked (execute ops k id plan dry).1
execute-Linked ops k id plan dry h fresh = elim (execute_cases ops k id plan dry) [
  | inl (e, p) ↦ rw p h
  | inr (inl f) ↦ rw f.outcome h
  | inr (inr s) ↦ Success-Linked ops k id plan dry _ h fresh s
]

module _ (k : Kernel) (id' id : String) (h : Linked k) where
  rollback-Linked : Linked (rollback k id' id).1
  rollback-Linked = elim (rollback_cases k id' id h) [
    | inl (r, e, f) ↦ rw e h
    | inr (r, s) ↦ rw s.outcome (
        restore-Linked k id r s.document s.documents s.known s.here s.matches
          (s.put_back r.document_id ∙ rw eq_refl refl)
          (λ j ne. s.put_back j ∙ ground (arith, eq_iff r.document_id j)) h)
  ]

Reached-Linked : {k : Kernel} → Reached k → Linked k
Reached-Linked start = new_kernel-Linked
Reached-Linked (executed ops k id plan dry h fresh) =
    execute-Linked ops k id plan dry (Reached-Linked h) fresh
Reached-Linked (undone k id' id h) = rollback-Linked k id' id (Reached-Linked h)

-- Whatever transactions were committed and taken back before: `rollback` raises no exception. It
-- refuses and changes nothing, or the document is the one that the named transaction committed, its
-- receipt mirrors that of the transaction, and only that document and that record change.
pub rollback_exact :
    (k : Kernel) (id' id : String)
    → Reached k
    → Refused k (rollback k id' id) ⊎ ((r : UndoRecord) × Restored k id' id r)
rollback_exact k id' id h = rollback_cases k id' id (Reached-Linked h)

-- In a kernel that calls of the adapter reach, `observe` raises no exception for any document.
pub observe_total :
    (k : Kernel) (document_id : String)
    → Reached k
    → (s : Option DocumentSnapshot) × (observe k document_id ≡ ok s)
unfolding observe snapshot_opt
observe_total k document_id h = elim (Option-cases (Dict.get k.documents document_id)) [
  | inl e ↦ (none, rw e)
  | inr (d, e) ↦ let (s, p) = (Reached-Linked h).observed document_id d e in (s, rw e p)
]
