-- ===== src/Memory/Methods.antt =====
-- The methods of `MemoryKernelAdapter`: `validate`, `execute` and `rollback`. The lock makes each one
-- step. A fresh `uuid4` is an argument.
use cadrig.Base.{
  ℕ, ◌+◌, String, Bool, false, not, ◌||◌, Option, none, some, List, [], ◌∷◌, ◌++◌, Result, ok, err,
  assertion_error, eqb, length, keep, if◌then◌else◌,
}
use cadrig.Base.Dict
use cadrig.Json.{FloatOps}
use cadrig.Contracts.{
  Action, ActionPlan, create_document, Diagnostic, DocumentSnapshot, ExecutionReceipt, applied,
  dry_run, refused, rolled_back, same_kind, supports,
}
use cadrig.Memory.State.{Document, UndoRecord, Kernel, supported, snapshot, snapshot_opt}
use cadrig.Memory.Apply.{Step, done, failure, raised, apply_all}

abbrev is_create : Action → Bool
is_create a = same_kind a.kind create_document

unfoldable pub unsupported_diagnostics : List Action → List Diagnostic
unsupported_diagnostics [] = []
unsupported_diagnostics (a ∷ actions) =
    let rest = unsupported_diagnostics actions in
    if supports supported a.kind
    then rest
    else record { code = "UNSUPPORTED_ACTION"; action_id = some a.action_id } ∷ rest

-- `current.revision if current else 0`
abbrev pub revision_of : Option Document → ℕ
revision_of none = 0
revision_of (some d) = d.revision

unfoldable pub stale_diagnostics : ℕ → ℕ → List Diagnostic
stale_diagnostics current base =
    if eqb current base
    then []
    else record { code = "STALE_DOCUMENT_REVISION"; action_id = none } ∷ []

abbrev starts_with_create : List Action → Bool
starts_with_create [] = false
starts_with_create (a ∷ actions) = is_create a

unfoldable pub creation_diagnostics : Option Document → List Action → List Diagnostic
creation_diagnostics none actions =
    if not (eqb (length (keep is_create actions)) 1) || not (starts_with_create actions)
    then record { code = "DOCUMENT_NOT_FOUND"; action_id = none } ∷ []
    else []
creation_diagnostics (some d) actions = elim (keep is_create actions) [
  | [] ↦ []
  | a ∷ rest ↦ record { code = "DOCUMENT_ALREADY_EXISTS"; action_id = some a.action_id } ∷ []
]

-- `validate(plan)`
unfoldable pub validate : Kernel → ActionPlan → List Diagnostic
unfolding unsupported_diagnostics stale_diagnostics creation_diagnostics same_kind supports
validate k plan =
    let current = Dict.get k.documents plan.document_id in
    unsupported_diagnostics plan.actions
    ++ (stale_diagnostics (revision_of current) plan.base_revision
        ++ creation_diagnostics current plan.actions)

abbrev pub refusal :
    String → ActionPlan → List Diagnostic → Option DocumentSnapshot → ExecutionReceipt
refusal id plan diagnostics before = record {
  receipt_id = id;
  plan_id = plan.plan_id;
  adapter_id = "memory";
  status = refused;
  diagnostics = diagnostics;
  before = before;
  after = before;
}

abbrev pub success :
    String → ActionPlan → Bool → Option DocumentSnapshot → DocumentSnapshot → ExecutionReceipt
success id plan dry before after = record {
  receipt_id = id;
  plan_id = plan.plan_id;
  adapter_id = "memory";
  status = if dry then dry_run else applied;
  diagnostics = [];
  before = before;
  after = some after;
}

-- `self._documents[...] = candidate` and `self._undo[receipt_id] = _UndoRecord(...)`
abbrev pub commit : Kernel → String → Document → Option Document → ExecutionReceipt → Kernel
commit k document_id candidate before receipt = record {
  documents = Dict.put k.documents document_id candidate;
  undo = Dict.put k.undo receipt.receipt_id (record {
    document_id = document_id;
    expected_revision = candidate.revision;
    before = before;
    original_receipt = receipt;
  });
}

-- What `execute` does once the plan is valid and its actions have been tried.
unfoldable pub finish :
    Kernel
    → String
    → ActionPlan
    → Bool
    → Option Document
    → Option DocumentSnapshot
    → Step (Option Document)
    → Result ExecutionReceipt × Kernel
finish k id plan dry old before (failure d) = (ok (refusal id plan (d ∷ []) before), k)
finish k id plan dry old before (raised e) = (err e, k)
finish k id plan dry old before (done none) = (err assertion_error, k)
finish k id plan dry old before (done (some d)) =
    let candidate = record d { revision = plan.base_revision + 1 } in
    elim (snapshot candidate) [
      | err e ↦ (err e, k)
      | ok after ↦
          let receipt = success id plan dry before after in
          (ok receipt, if dry then k else commit k plan.document_id candidate old receipt)
    ]

-- `execute(plan, dry_run=dry)`
unfoldable pub execute :
    FloatOps → Kernel → String → ActionPlan → Bool → Result ExecutionReceipt × Kernel
unfolding finish
execute ops k id plan dry =
    let old = Dict.get k.documents plan.document_id in
    elim (snapshot_opt old) [
      | err e ↦ (err e, k)
      | ok before ↦ elim (validate k plan) [
        | [] ↦ finish k id plan dry old before (apply_all ops plan.document_id old plan.actions)
        | d ∷ ds ↦ (ok (refusal id plan (d ∷ ds) before), k)
      ]
    ]

-- `_rollback_refusal`
abbrev pub rollback_refusal : String → String → String → ExecutionReceipt
rollback_refusal id receipt_id code = record {
  receipt_id = id;
  plan_id = receipt_id;
  adapter_id = "memory";
  status = refused;
  diagnostics = record { code = code; action_id = none } ∷ [];
  before = none;
  after = none;
}

abbrev pub rolled_back_receipt :
    String → UndoRecord → DocumentSnapshot → Option DocumentSnapshot → ExecutionReceipt
rolled_back_receipt id r before after = record {
  receipt_id = id;
  plan_id = r.original_receipt.plan_id;
  adapter_id = "memory";
  status = rolled_back;
  diagnostics = [];
  before = some before;
  after = after;
}

-- The restoration, after the two checks of `rollback`. A snapshot that raises leaves the documents
-- that are written by then.
unfoldable pub restore :
    Kernel
    → String
    → String
    → UndoRecord
    → DocumentSnapshot
    → Option Document
    → Result ExecutionReceipt × Kernel
restore k id receipt_id r before none = (
  ok (rolled_back_receipt id r before none),
  record {
    documents = Dict.remove k.documents r.document_id;
    undo = Dict.remove k.undo receipt_id;
  },
)
restore k id receipt_id r before (some old) =
    let documents = Dict.put k.documents r.document_id old in
    elim (snapshot old) [
      | err e ↦ (err e, record k { documents = documents })
      | ok after ↦ (
        ok (rolled_back_receipt id r before (some after)),
        record { documents = documents; undo = Dict.remove k.undo receipt_id },
      )
    ]

-- `rollback(receipt_id)`
unfoldable pub rollback : Kernel → String → String → Result ExecutionReceipt × Kernel
unfolding restore
rollback k id receipt_id = elim (Dict.get k.undo receipt_id) [
  | none ↦ (ok (rollback_refusal id receipt_id "ROLLBACK_NOT_FOUND"), k)
  | some r ↦ elim (Dict.get k.documents r.document_id) [
    | none ↦ (ok (rollback_refusal id receipt_id "ROLLBACK_CONFLICT"), k)
    | some current ↦
        if eqb current.revision r.expected_revision
        then elim (snapshot current) [
          | err e ↦ (err e, k)
          | ok before ↦ restore k id receipt_id r before r.before
        ]
        else (ok (rollback_refusal id receipt_id "ROLLBACK_CONFLICT"), k)
  ]
]
