-- ===== src/Agent/Interface.antt =====
-- `ExecutionEngine` of executor.py as the agent sees it: the methods of the adapter behind an id, over
-- a state that holds the native documents. `IsLawful` is what adapters/base.py promises of them.
use cadrig.Base.{String, ◌≡◌, Bool, true, false, Option, List, Result, ok}
use cadrig.Contracts.{
  ActionPlan, AdapterMetadata, Diagnostic, DocumentSnapshot, ExecutionReceipt, status_accepted,
}

pub record Engine : Type 1 where
  pub State : Type 0
  pub adapters : State → List AdapterMetadata
  pub observe : State → String → String → Result (Option DocumentSnapshot)
  pub validate : State → String → ActionPlan → Result (List Diagnostic)
  pub execute : State → String → ActionPlan → Bool → Result ExecutionReceipt × State
  pub rollback : State → String → String → Result ExecutionReceipt × State

-- `Same s t`: no document differs.
pub record IsLawful (E : Engine) : Type 1 where
  pub Same : E.State → E.State → Type 0
  pub same_refl : (s : E.State) → Same s s
  pub same_trans : (s t u : E.State) → Same s t → Same t u → Same s u
  -- A preview changes nothing, an exception included.
  pub execute_dry : (s : E.State) (a : String) (p : ActionPlan) → Same (E.execute s a p true).1 s
  -- A refusal changes nothing.
  pub execute_refused :
      (s : E.State) (a : String) (p : ActionPlan) (r : ExecutionReceipt)
      → (E.execute s a p false).0 ≡ ok r
      → status_accepted r.status ≡ false
      → Same (E.execute s a p false).1 s
  -- Right after a commit a rollback is accepted and restores every document.
  pub rollback_restores :
      (s : E.State) (a : String) (p : ActionPlan) (r : ExecutionReceipt)
      → (E.execute s a p false).0 ≡ ok r
      → status_accepted r.status ≡ true
      → (b : ExecutionReceipt) × ((E.rollback (E.execute s a p false).1 a r.receipt_id).0 ≡ ok b)
        × (status_accepted b.status ≡ true)
        × Same (E.rollback (E.execute s a p false).1 a r.receipt_id).1 s
