-- ===== src/Memory/Rollback.antt =====
-- `rollback` of the memory adapter undoes the last commit of a document and refuses any other.
use cadrig.Base.{
  String, ◌≡◌, refl, sym, subst, false, Option, none, some, arith, Result, ok, >>=-eq-ok, eq_iff,
}
use cadrig.Base.Dict
use cadrig.Base.Dict.{get-put, get-remove, get-put_self, get-put_ne, get-remove_self, get-remove_ne}
use cadrig.Json.{FloatOps}
use cadrig.Contracts.{ActionPlan, DocumentSnapshot, ExecutionReceipt, applied, rolled_back}
use cadrig.Memory.State.{Document, Kernel, UndoRecord, snapshot, snapshot_opt}
use cadrig.Memory.Methods.{execute, rollback, restore, commit, success}
use cadrig.Memory.Cases.{Success, revised, applied-Success}

-- Two kernels that no method tells apart.
pub record Same (a b : Kernel) : Type 0 where
  pub documents : (j : String) → Dict.get a.documents j ≡ Dict.get b.documents j
  pub undo : (j : String) → Dict.get a.undo j ≡ Dict.get b.undo j

-- A rollback that takes back a commit: the outcome, from the receipt of the commit.
pub record Undone (k : Kernel) (r : ExecutionReceipt) (o : Result ExecutionReceipt × Kernel)
    : Type 0 where
  pub receipt : ExecutionReceipt
  pub outcome : o.0 ≡ ok receipt
  pub status : receipt.status ≡ rolled_back
  pub plan_id : receipt.plan_id ≡ r.plan_id
  pub before : receipt.before ≡ r.after
  pub after : receipt.after ≡ r.before
  pub restored : Same o.1 k

module _ (k : Kernel) (id id' : String) (document_id : String) (d : Document)
    (after : DocumentSnapshot) where
  abbrev undo_record : Option Document → ExecutionReceipt → UndoRecord
  undo_record old r = record {
    document_id = document_id;
    expected_revision = d.revision;
    before = old;
    original_receipt = r;
  }

  restored_Same :
      (old : Option Document) (r : ExecutionReceipt) (docs : Dict.Dict Document)
      → r.receipt_id ≡ id
      → Dict.get k.undo id ≡ none
      → ((j : String) → Dict.get docs j ≡ Dict.get k.documents j)
      → Same
          (record { documents = docs; undo = Dict.remove (commit k document_id d old r).undo id })
          k
  restored_Same old r docs e fresh same = record {
    documents = same;
    undo = λ j. rw get-remove (rw get-put (ground (arith, eq_iff id j, fresh)));
  }

  -- `restore` puts back what the commit of `d` replaced.
  restore-commit :
      (old : Option Document) (before : Option DocumentSnapshot) (r : ExecutionReceipt)
      → Dict.get k.documents document_id ≡ old
      → snapshot_opt old ≡ ok before
      → r.receipt_id ≡ id
      → r.after ≡ some after
      → r.before ≡ before
      → Dict.get k.undo id ≡ none
      → Undone k r (restore (commit k document_id d old r) id' id (undo_record old r) after old)
  unfolding restore snapshot_opt
  restore-commit none before r e s i a b fresh = record {
    receipt = _;
    outcome = refl;
    status = refl;
    plan_id = refl;
    before = sym a;
    after = ground arith;
    restored =
        restored_Same none r _ i fresh
          (λ j. rw get-remove (rw get-put (ground (arith, eq_iff document_id j, e))));
  }
  restore-commit (some o) before r e s i a b fresh =
      let (snap, seen, known) = >>=-eq-ok (snapshot o) (λ x. ok (some x)) s in
      rw (seen, restore)
        record {
          receipt = _;
          outcome = refl;
          status = refl;
          plan_id = refl;
          before = sym a;
          after = ground arith;
          restored =
              restored_Same (some o) r _ i fresh
                (λ j. rw get-put (rw get-put (ground (arith, eq_iff document_id j, e))));
        }

-- A rollback that meets the revision that it expects goes on to `restore`.
pub rollback-restore :
    (k : Kernel) (id' id : String) (r : UndoRecord) (c : Document) (b : DocumentSnapshot)
    → Dict.get k.undo id ≡ some r
    → Dict.get k.documents r.document_id ≡ some c
    → c.revision ≡ r.expected_revision
    → snapshot c ≡ ok b
    → rollback k id' id ≡ restore k id' id r b r.before
unfolding rollback
rollback-restore k id' id r c b u d e s = ground arith

-- `rollback` writes no undo record.
pub rollback-undo_none :
    (k : Kernel) (id' id j : String)
    → Dict.get k.undo j ≡ none
    → Dict.get (rollback k id' id).1.undo j ≡ none
unfolding rollback
rollback-undo_none k id' id j e = ground (arith, get-remove k.undo id j)

module _ (ops : FloatOps) (k : Kernel) (id id' : String) (plan : ActionPlan) where
  rollback-Success :
      (o : Result ExecutionReceipt × Kernel) (s : Success ops k id plan false o)
      → Dict.get k.undo id ≡ none
      → Undone k (success id plan false s.before s.after) (rollback o.1 id' id)
  rollback-Success o s fresh =
      let d = revised ops k id plan s.document in
      let receipt = success id plan false s.before s.after in
      let old = Dict.get k.documents plan.document_id in
      rw s.outcome (
        rw
          (rollback-restore (commit k plan.document_id d old receipt) id' id
            (undo_record k id id' plan.document_id d s.after old receipt) d s.after
            (get-put_self k.undo id _) (get-put_self k.documents plan.document_id d) refl
            s.after_eq)
          (restore-commit k id id' plan.document_id d s.after old s.before receipt refl s.before_eq
            refl refl refl fresh))

  -- Right after a commit under a fresh receipt id, `rollback` succeeds: its receipt mirrors that of
  -- the commit, and the kernel has every document and undo record that it had before.
  pub rollback-execute :
      (r : ExecutionReceipt)
      → (execute ops k id plan false).0 ≡ ok r
      → r.status ≡ applied
      → Dict.get k.undo id ≡ none
      → Undone k r (rollback (execute ops k id plan false).1 id' id)
  rollback-execute r e a fresh =
      let (s, same) = applied-Success ops k id plan false r e a in
      subst (λ x. Undone k x (rollback (execute ops k id plan false).1 id' id)) same
        (rollback-Success _ s fresh)
