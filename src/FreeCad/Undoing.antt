-- ===== src/FreeCad/Undoing.antt =====
-- `rollback` of the FreeCAD adapter: the undo records by the ways that it ends.
use cadrig.Base.{
  String, ◌≡◌, refl, subst, ◌⊎◌, inl, inr, Bool-cases, Option, Option-cases, none, some, Result, ok,
  err, Error, eqb, if◌then◌else◌,
}
use cadrig.Base.Dict
use cadrig.Base.Dict.{Dict}
use cadrig.Json.{FloatOps}
use cadrig.Contracts.{DocumentSnapshot, ExecutionReceipt, refused, rolled_back}
use cadrig.Steps.{Step, done, failure, raised}
use cadrig.FreeCad.Host.{Host}
use cadrig.FreeCad.State.{Adapter, UndoRecord, get_document, observe}
use cadrig.FreeCad.Receipts.{rolled_back_receipt}
use cadrig.FreeCad.Execute.{close}
use cadrig.FreeCad.Rollback.{
  revision_before, undo_change, error_refusal, closed, undone, restore, restore_found,
  restore_current, restore_seen, rollback,
}
use cadrig.FreeCad.Observing.{undo-observe}

module _ {W Doc Obj : Type 0} (host : Host W Doc Obj) (ops : FloatOps) where
  abbrev pub Call : Type 0
  Call = Result ExecutionReceipt × Adapter W

  -- An exception or a refusal
  abbrev pub NotDone : Result ExecutionReceipt → Type 0
  NotDone (err e) = Unit
  NotDone (ok r) = r.status ≡ refused

  -- The two ends of a rollback, for the undo records before it
  abbrev pub Kept : Dict UndoRecord → String → Call → Type 0
  Kept undo receipt_id o =
      ((r : ExecutionReceipt) × (o.0 ≡ ok r)
        × (r.status ≡ rolled_back)
        × (o.1.undo ≡ Dict.remove undo receipt_id))
      ⊎ (NotDone o.0 × (o.1.undo ≡ undo))

  module _ (id receipt_id : String) where
    refusal_keeps :
        (s : Adapter W) (e : Error) (w : W)
        → Kept s.undo receipt_id (error_refusal host ops s id receipt_id e w)
    unfolding error_refusal
    refusal_keeps s e w = elim (Bool-cases (host.has_message e)) [
      | inl x ↦ rw (x, if◌then◌else◌) (inr (refl, refl))
      | inr x ↦ rw (x, if◌then◌else◌) (inr (tt, refl))
    ]

    closed_keeps :
        (s : Adapter W) (r : UndoRecord) (before : DocumentSnapshot) (x : Step (Unit {0}) × W)
        → Kept s.undo receipt_id (closed host ops s id receipt_id r before x)
    unfolding closed
    closed_keeps s r before (done u, w) =
        inl (rolled_back_receipt id r before none, refl, refl, refl)
    closed_keeps s r before (failure d, w) = inr (refl, refl)
    closed_keeps s r before (raised e, w) = refusal_keeps s e w

    undone_keeps :
        (s : Adapter W) (r : UndoRecord) (before : DocumentSnapshot) (x : Step DocumentSnapshot × W)
        → Kept s.undo receipt_id (undone host ops s id receipt_id r before x)
    unfolding undone
    undone_keeps s r before (done after, w) =
        inl (rolled_back_receipt id r before (some after), refl, refl, refl)
    undone_keeps s r before (failure d, w) = inr (refl, refl)
    undone_keeps s r before (raised e, w) = refusal_keeps s e w

    found_keeps :
        (s : Adapter W) (r : UndoRecord) (before : DocumentSnapshot) (x : Result (Option Doc))
        → Kept s.undo receipt_id (restore_found host ops s id receipt_id r before x)
    unfolding restore
    found_keeps s r before (err e) = inr (tt, refl)
    found_keeps s r before (ok none) = inr (tt, refl)
    found_keeps s r before (ok (some d)) = elim (Bool-cases r.created_document) [
      | inl e ↦ rw (e, restore) (closed_keeps s r before (close host ops d s.world))
      | inr e ↦
          rw (e, restore)
            (undone_keeps s r before
              (undo_change host ops d (revision_before r.original_receipt.before) s.world))
    ]

    current_keeps :
        (s : Adapter W) (r : UndoRecord) (current : Option DocumentSnapshot)
        → Kept s.undo receipt_id (restore_current host ops s id receipt_id r current)
    unfolding restore_current
    current_keeps s r none = inr (refl, refl)
    current_keeps s r (some x) = elim (Bool-cases (eqb x.revision r.expected_revision)) [
      | inl e ↦ rw (e, if◌then◌else◌) (found_keeps s r x (get_document host s.world r.document_id))
      | inr e ↦ rw (e, if◌then◌else◌) (inr (refl, refl))
    ]

    seen_keeps :
        (s : Adapter W) (r : UndoRecord) (o : Result (Option DocumentSnapshot) × Adapter W)
        → o.1.undo ≡ s.undo
        → Kept s.undo receipt_id (restore_seen host ops id receipt_id r o)
    seen_keeps s r (err e, t) h = inr (tt, h)
    seen_keeps s r (ok current, t) h =
        subst (λ u. Kept u receipt_id (restore_current host ops t id receipt_id r current)) h
          (current_keeps t r current)

    -- A rollback has one of two ends: a receipt with the status `rolled_back`, and then exactly its
    -- undo record is gone; or a refusal or an exception, and then every undo record is kept, so that the
    -- rollback can be tried again.
    pub rollback_keeps :
        (s : Adapter W) → Kept s.undo receipt_id (rollback host ops s id receipt_id)
    unfolding rollback
    rollback_keeps s = elim (Option-cases (Dict.get s.undo receipt_id)) [
      | inl e ↦ rw (e, rollback) (inr (refl, refl))
      | inr (r, e) ↦
          rw (e, rollback)
            (seen_keeps s r (observe host s r.document_id) (undo-observe host s r.document_id))
    ]
