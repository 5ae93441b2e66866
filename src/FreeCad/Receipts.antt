-- ===== src/FreeCad/Receipts.antt =====
-- The receipts of freecad.py: `_receipt` for each end of a method, and `_rollback_refusal`.
use cadrig.Base.{String, none, Option, List, [], ◌∷◌, some}
use cadrig.Contracts.{
  ActionPlan, Diagnostic, DocumentSnapshot, ExecutionReceipt, ExecutionStatus, refused, rolled_back,
}
use cadrig.FreeCad.State.{UndoRecord}

-- `_receipt(...)`
abbrev pub receipt :
    String
    → String
    → ExecutionStatus
    → List Diagnostic
    → Option DocumentSnapshot
    → Option DocumentSnapshot
    → ExecutionReceipt
receipt id plan_id status diagnostics before after = record {
  receipt_id = id;
  plan_id = plan_id;
  adapter_id = "freecad";
  status = status;
  diagnostics = diagnostics;
  before = before;
  after = after;
}

-- A refusal of a plan
abbrev pub refusal :
    String → ActionPlan → List Diagnostic → Option DocumentSnapshot → ExecutionReceipt
refusal id plan diagnostics before = receipt id plan.plan_id refused diagnostics before before

-- `_rollback_refusal(receipt_id, code, message)`
abbrev pub rollback_refusal : String → String → String → ExecutionReceipt
rollback_refusal id receipt_id code =
    receipt id receipt_id refused (record { code = code; action_id = none } ∷ []) none none

-- The receipt of a rollback
abbrev pub rolled_back_receipt :
    String → UndoRecord → DocumentSnapshot → Option DocumentSnapshot → ExecutionReceipt
rolled_back_receipt id r before after =
    receipt id r.original_receipt.plan_id rolled_back [] (some before) after

abbrev pub diagnostic : String → Diagnostic
diagnostic code = record { code = code; action_id = none }
