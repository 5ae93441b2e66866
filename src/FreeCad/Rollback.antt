-- ===== src/FreeCad/Rollback.antt =====
-- `rollback` of freecad.py. A fresh `uuid4` is an argument.
use cadrig.Base.{
  ℕ, String, true, false, Option, none, some, Result, ok, err, Error, assertion_error,
  runtime_error, contract_error, empty_message, eqb, if◌then◌else◌,
}
use cadrig.Base.Dict
use cadrig.Json.{FloatOps}
use cadrig.Contracts.{DocumentSnapshot, ExecutionReceipt}
use cadrig.Steps.{Step, done, failure, raised}
use cadrig.FreeCad.Host.{Host}
use cadrig.FreeCad.Objects.{snapshot}
use cadrig.FreeCad.State.{UndoRecord, Adapter, get_document, observe, fingerprint_of}
use cadrig.FreeCad.Receipts.{rollback_refusal, rolled_back_receipt}
use cadrig.FreeCad.Execute.{close, ignore_result}
use cadrig.FreeCad.Monad.{Cad, step, answer, call, ◌>>=◌, ◌>>◌}

-- `original_receipt.before.revision`, 0 without it
abbrev pub revision_before : Option DocumentSnapshot → ℕ
revision_before none = 0
revision_before (some s) = s.revision

module _ {W Doc Obj : Type 0} (host : Host W Doc Obj) (ops : FloatOps) where
  -- `document.undo()`, `document.recompute()` and the snapshot
  unfoldable pub undo_change : Doc → ℕ → Cad W DocumentSnapshot
  undo_change d revision = do
    undone ← call (λ w. host.undo w d)
    step (if undone then done tt else raised runtime_error)
    ignore_result host ops d
    answer (λ w. snapshot host w d revision)

  abbrev failure_refusal : Adapter W → String → String → W → Result ExecutionReceipt × Adapter W
  failure_refusal s id receipt_id w =
      (ok (rollback_refusal id receipt_id "FREECAD_ROLLBACK_ERROR"), record s { world = w })

  -- The handler: a diagnostic with the message `str(exc)` must not be empty.
  unfoldable pub error_refusal :
      Adapter W → String → String → Error → W → Result ExecutionReceipt × Adapter W
  error_refusal s id receipt_id e w =
      if host.has_message e
      then failure_refusal s id receipt_id w
      else (err (contract_error empty_message), record s { world = w })

  -- The end of a rollback that closes the document
  unfoldable pub closed :
      Adapter W
      → String
      → String
      → UndoRecord
      → DocumentSnapshot
      → Step (Unit {0}) × W
      → Result ExecutionReceipt × Adapter W
  unfolding error_refusal
  closed s id receipt_id r before (done u, w) = (
    ok (rolled_back_receipt id r before none),
    record {
      world = w;
      revisions = Dict.remove s.revisions r.document_id;
      undo = Dict.remove s.undo receipt_id;
    },
  )
  closed s id receipt_id r before (failure d, w) = failure_refusal s id receipt_id w
  closed s id receipt_id r before (raised e, w) = error_refusal s id receipt_id e w

  -- The end of a rollback by the host's undo
  unfoldable pub undone :
      Adapter W
      → String
      → String
      → UndoRecord
      → DocumentSnapshot
      → Step DocumentSnapshot × W
      → Result ExecutionReceipt × Adapter W
  unfolding error_refusal
  undone s id receipt_id r before (done after, w) = (
    ok (rolled_back_receipt id r before (some after)),
    record {
      world = w;
      revisions = Dict.put s.revisions r.document_id (record {
        fingerprint = fingerprint_of host after;
        revision = revision_before r.original_receipt.before;
      });
      undo = Dict.remove s.undo receipt_id;
    },
  )
  undone s id receipt_id r before (failure d, w) = failure_refusal s id receipt_id w
  undone s id receipt_id r before (raised e, w) = error_refusal s id receipt_id e w

  -- The restoration, after the two checks
  unfoldable pub restore :
      Adapter W
      → String
      → String
      → UndoRecord
      → DocumentSnapshot
      → Doc
      → Result ExecutionReceipt × Adapter W
  unfolding closed undone
  restore s id receipt_id r before d = elim r.created_document [
    | true ↦ closed s id receipt_id r before (close host ops d s.world)
    | false ↦
        undone s id receipt_id r before
          (undo_change d (revision_before r.original_receipt.before) s.world)
  ]

  abbrev pub restore_found :
      Adapter W
      → String
      → String
      → UndoRecord
      → DocumentSnapshot
      → Result (Option Doc)
      → Result ExecutionReceipt × Adapter W
  restore_found s id receipt_id r before (err e) = (err e, s)
  restore_found s id receipt_id r before (ok none) = (err assertion_error, s)
  restore_found s id receipt_id r before (ok (some d)) = restore s id receipt_id r before d

  -- The check of the revision
  unfoldable pub restore_current :
      Adapter W
      → String
      → String
      → UndoRecord
      → Option DocumentSnapshot
      → Result ExecutionReceipt × Adapter W
  unfolding restore
  restore_current s id receipt_id r none =
      (ok (rollback_refusal id receipt_id "ROLLBACK_CONFLICT"), s)
  restore_current s id receipt_id r (some current) =
      if eqb current.revision r.expected_revision
      then restore_found s id receipt_id r current (get_document host s.world r.document_id)
      else (ok (rollback_refusal id receipt_id "ROLLBACK_CONFLICT"), s)

  abbrev pub restore_seen :
      String
      → String
      → UndoRecord
      → Result (Option DocumentSnapshot) × Adapter W
      → Result ExecutionReceipt × Adapter W
  restore_seen id receipt_id r (err e, t) = (err e, t)
  restore_seen id receipt_id r (ok current, t) = restore_current t id receipt_id r current

  -- `rollback(receipt_id)`
  unfoldable pub rollback : Adapter W → String → String → Result ExecutionReceipt × Adapter W
  unfolding restore_current
  rollback s id receipt_id = elim (Dict.get s.undo receipt_id) [
    | none ↦ (ok (rollback_refusal id receipt_id "ROLLBACK_NOT_FOUND"), s)
    | some r ↦ restore_seen id receipt_id r (observe host s r.document_id)
  ]
