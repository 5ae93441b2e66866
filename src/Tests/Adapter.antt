-- ===== src/Tests/Adapter.antt =====
-- The memory adapter at the sample plans.
use cadrig.Base.{◌≡◌, refl, ◌≢◌, ◌⊎◌, true, false, none, some, pos, [], ◌∷◌, ok, arith, Option}
use cadrig.Base.Dict
use cadrig.Base.Text.{is_blank}
use cadrig.Json.{float, place}
use cadrig.Contracts.{
  ExecutionReceipt, DocumentSnapshot, applied, check_identifier, document_snapshot,
  feature_snapshot,
}
use cadrig.Memory.{
  Kernel, UndoRecord, new_kernel, snapshot, observe, validate, execute, rollback, apply_all,
  apply_action, snapshot_opt,
}
use cadrig.Memory.Atomic.{execute_atomic, execute-as_preview, as_preview}
use cadrig.Memory.Rollback.{rollback-execute, Undone}
use cadrig.Memory.History.Rollbacks.{Refused, Restored}
use cadrig.Memory.History.Reached.{Reached, start, executed, rollback_exact, observe_total}
use cadrig.Tests.Samples.{whole_floats, create_plan, widen_plan}

abbrev after_create : Kernel
after_create = (execute whole_floats new_kernel "r1" create_plan false).1

abbrev created : DocumentSnapshot
created = record {
  document_id = "part";
  revision = 1;
  features =
      record {
        feature_id = "base";
        feature_type = "box";
        parameters =
            ("width", float (place (pos 80)))
            ∷ ("depth", float (place (pos 45)))
            ∷ ("height", float (place (pos 12)))
            ∷ [];
      }
      ∷ [];
}

abbrev created_receipt : ExecutionReceipt
created_receipt = record {
  receipt_id = "r1";
  plan_id = "p1";
  adapter_id = "memory";
  status = applied;
  diagnostics = [];
  before = none;
  after = some created;
}

create_applies : (execute whole_floats new_kernel "r1" create_plan false).0 ≡ ok created_receipt
unfolding execute validate snapshot_opt snapshot apply_all apply_action Dict.get Dict.put is_blank
    feature_snapshot check_identifier document_snapshot
create_applies = refl

stale_plan_refused :
    (r : ExecutionReceipt)
    → (execute whole_floats new_kernel "r1" widen_plan false).0 ≡ ok r
    → r.status ≢ applied
unfolding execute validate snapshot_opt apply_all Dict.get Dict.put is_blank
stale_plan_refused r e = ground arith

execute_atomic_example : (execute whole_floats new_kernel "r1" widen_plan false).1 ≡ new_kernel
execute_atomic_example =
    execute_atomic whole_floats new_kernel "r1" widen_plan false stale_plan_refused

execute-as_preview_example :
    (execute whole_floats after_create "r2" widen_plan true).0
    ≡ as_preview (execute whole_floats after_create "r2" widen_plan false).0
execute-as_preview_example = execute-as_preview whole_floats after_create "r2" widen_plan

rollback-execute_example : Undone new_kernel created_receipt (rollback after_create "r2" "r1")
rollback-execute_example =
    rollback-execute whole_floats new_kernel "r1" "r2" create_plan created_receipt create_applies
      refl (Dict.get-empty "r1")

after_create-Reached : Reached after_create
after_create-Reached =
    executed whole_floats new_kernel "r1" create_plan false start (Dict.get-empty "r1")

rollback_exact_example :
    Refused after_create (rollback after_create "r2" "r1")
    ⊎ ((r : UndoRecord) × Restored after_create "r2" "r1" r)
rollback_exact_example = rollback_exact after_create "r2" "r1" after_create-Reached

observe_total_example : (s : Option DocumentSnapshot) × (observe after_create "part" ≡ ok s)
observe_total_example = observe_total after_create "part" after_create-Reached
