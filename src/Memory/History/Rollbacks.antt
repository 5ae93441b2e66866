-- ===== src/Memory/History/Rollbacks.antt =====
-- How a rollback ends in a kernel with linked undo records.
use cadrig.Base.{
  String, ◌≡◌, refl, ◌∙◌, subst, ◌⊎◌, inl, inr, Option, none, some, arith, ◌==◌, Result, ok, eqb,
  eqb_iff, Bool-cases, if◌then◌else◌, >>=-eq-ok,
}
use cadrig.Base.Dict
use cadrig.Base.Dict.{
  Dict, get-put, get-remove, get-empty, get-put_self, get-put_ne, get-remove_self, get-remove_ne,
}
use cadrig.Contracts.{DocumentSnapshot, ExecutionReceipt, rolled_back, refused}
use cadrig.Memory.State.{Document, Kernel, UndoRecord, snapshot, snapshot_opt}
use cadrig.Memory.Methods.{rollback, restore, rollback_refusal, rolled_back_receipt}
use cadrig.Memory.Rollback.{rollback-restore}
use cadrig.Memory.History.Linked.{Linked, Has}

-- How a rollback ends in a linked kernel: refused, or with the record's document restored.
pub record Restored (k : Kernel) (id' id : String) (r : UndoRecord) : Type 0 where
  pub known : Has k id r
  pub document : Document
  pub here : Dict.get k.documents r.document_id ≡ some document
  pub matches : document.revision ≡ r.expected_revision
  pub documents : Dict Document
  pub put_back :
      (j : String)
      → Dict.get documents j ≡ (if r.document_id == j then r.before else Dict.get k.documents j)
  pub receipt : ExecutionReceipt
  pub outcome :
      rollback k id' id
      ≡ (ok receipt, record { documents = documents; undo = Dict.remove k.undo id })
  pub status : receipt.status ≡ rolled_back
  pub plan_id : receipt.plan_id ≡ r.original_receipt.plan_id
  pub before : receipt.before ≡ r.original_receipt.after
  pub after : receipt.after ≡ r.original_receipt.before

abbrev pub Refused : Kernel → Result ExecutionReceipt × Kernel → Type 0
Refused k o = (r : ExecutionReceipt) × (o ≡ (ok r, k)) × (r.status ≡ refused)

module _ (k : Kernel) (id' id : String) (h : Linked k) where
  restore_cases :
      (r : UndoRecord) (c : Document) (b : DocumentSnapshot) (o : Option Document)
      → Has k id r
      → Dict.get k.documents r.document_id ≡ some c
      → c.revision ≡ r.expected_revision
      → snapshot c ≡ ok b
      → r.before ≡ o
      → Restored k id' id r
  unfolding restore snapshot_opt
  restore_cases r c b none u d e s p = record {
    known = u;
    document = c;
    here = d;
    matches = e;
    documents = Dict.remove k.documents r.document_id;
    put_back = λ j. rw (get-remove, p) refl;
    receipt = rolled_back_receipt id' r b none;
    outcome = rollback-restore k id' id r c b u d e s ∙ rw (p, restore) refl;
    status = refl;
    plan_id = refl;
    before = ground (arith, h.current id r c u d e);
    after = ground (arith, h.replaced id r u);
  }
  restore_cases r c b (some o) u d e s p =
      let whole : snapshot_opt (some o) ≡ ok r.original_receipt.before =
        subst (λ x. snapshot_opt x ≡ ok r.original_receipt.before) p (h.replaced id r u) in
      let (a, seen, same) = >>=-eq-ok (snapshot o) (λ x. ok (some x)) whole in
      record {
        known = u;
        document = c;
        here = d;
        matches = e;
        documents = Dict.put k.documents r.document_id o;
        put_back = λ j. rw (get-put, p) refl;
        receipt = rolled_back_receipt id' r b (some a);
        outcome =
            rollback-restore k id' id r c b u d e s ∙ rw (p, restore) (rw (seen, restore) refl);
        status = refl;
        plan_id = refl;
        before = ground (arith, h.current id r c u d e);
        after = cc same;
      }

  record_cases :
      (r : UndoRecord) (o : Option Document)
      → Has k id r
      → Dict.get k.documents r.document_id ≡ o
      → Refused k (rollback k id' id) ⊎ Restored k id' id r
  unfolding rollback snapshot_opt
  record_cases r none u d = inl (rollback_refusal id' id "ROLLBACK_CONFLICT", ground arith, refl)
  record_cases r (some c) u d = elim (Bool-cases (eqb c.revision r.expected_revision)) [
    | inl e ↦
        let (s, whole) = h.observed r.document_id c d in
        let (b, seen, same) = >>=-eq-ok (snapshot c) (λ x. ok (some x)) whole in
        inr (
          restore_cases r c b r.before u d ((eqb_iff c.revision r.expected_revision).0 e) seen refl)
    | inr e ↦ inl (rollback_refusal id' id "ROLLBACK_CONFLICT", ground arith, refl)
  ]

  rollback_outcomes :
      (o : Option UndoRecord)
      → Dict.get k.undo id ≡ o
      → Refused k (rollback k id' id) ⊎ ((r : UndoRecord) × Restored k id' id r)
  unfolding rollback
  rollback_outcomes none u = inl (rollback_refusal id' id "ROLLBACK_NOT_FOUND", ground arith, refl)
  rollback_outcomes (some r) u = elim (record_cases r (Dict.get k.documents r.document_id) u refl) [
    | inl f ↦ inl f
    | inr s ↦ inr (r, s)
  ]

  -- In a linked kernel a rollback never raises.
  pub rollback_cases : Refused k (rollback k id' id) ⊎ ((r : UndoRecord) × Restored k id' id r)
  rollback_cases = rollback_outcomes (Dict.get k.undo id) refl
