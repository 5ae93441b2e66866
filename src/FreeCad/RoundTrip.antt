-- ===== src/FreeCad/RoundTrip.antt =====
-- `rollback` of the FreeCAD adapter right after a commit to a document that was there before.
use cadrig.Base.{
  ℕ, ◌+◌, String, ◌≡◌, refl, ap, ◌∙◌, Bool, true, false, Option, none, some, [], Result, ok,
  eqb_iff, eq_iff, ◌==◌, arith, if◌then◌else◌,
}
use cadrig.Base.Dict
use cadrig.Base.Dict.{get-remove}
use cadrig.Json.{FloatOps}
use cadrig.Contracts.{ActionPlan, DocumentSnapshot, ExecutionReceipt, rolled_back, applied}
use cadrig.Steps.{done}
use cadrig.FreeCad.Host.{Host}
use cadrig.FreeCad.Objects.{snapshot}
use cadrig.FreeCad.Validate
use cadrig.FreeCad.State.{Adapter, UndoRecord, get_document, observe, fingerprint_of}
use cadrig.FreeCad.Receipts.{rolled_back_receipt}
use cadrig.FreeCad.Methods.{execute, is_missing}
use cadrig.FreeCad.Rollback.{
  revision_before, undo_change, undone, restore, restore_found, restore_current, restore_seen,
  rollback,
}
use cadrig.FreeCad.Observing.{observe-some, noted}
use cadrig.FreeCad.Accepting.{validate-Accepts}
use cadrig.FreeCad.Changes.{Change, execute-Change}

same_revision :
    (before : Option DocumentSnapshot) → revision_before before ≡ Validate.current_revision before
same_revision none = refl
same_revision (some s) = refl

-- A plan that validates was made for the revision that is observed.
pub validate-revision :
    (ops : FloatOps) (before : Option DocumentSnapshot) (plan : ActionPlan)
    → Validate.validate ops before plan ≡ done []
    → revision_before before ≡ plan.base_revision
validate-revision ops before plan h =
    same_revision before ∙ (validate-Accepts ops before plan h).fresh

module _ {W Doc Obj : Type 0} (host : Host W Doc Obj) (ops : FloatOps) where
  noted_same :
      (t : Adapter W) (i : String) (fingerprint : String) (revision : ℕ)
      → Dict.get t.revisions i ≡ some (record { fingerprint = fingerprint; revision = revision })
      → noted host t i fingerprint ≡ record { fingerprint = fingerprint; revision = revision }
  noted_same t i fingerprint revision h = ground (arith, h, eq_iff fingerprint fingerprint)

  observe_known :
      (t : Adapter W) (i : String) (n : ℕ) (d : Doc) (shown : DocumentSnapshot)
      → get_document host t.world i ≡ ok (some d)
      → snapshot host t.world d 0 ≡ ok shown
      → Dict.get t.revisions i
        ≡ some (record { fingerprint = fingerprint_of host shown; revision = n })
      → observe host t i ≡ (
        ok (some (record shown { revision = n })),
        record t {
          revisions =
              Dict.put t.revisions i
                (record { fingerprint = fingerprint_of host shown; revision = n });
        },
      )
  observe_known t i n d shown g x known =
      observe-some host t i g x ∙ rw (noted_same t i (fingerprint_of host shown) n known) refl

  undone_current :
      (t : Adapter W) (id new_id : String) (u : UndoRecord) (current restored : DocumentSnapshot)
      (d : Doc) (w : W)
      → u.created_document ≡ false
      → current.revision ≡ u.expected_revision
      → get_document host t.world u.document_id ≡ ok (some d)
      → undo_change host ops d (revision_before u.original_receipt.before) t.world
        ≡ (done restored, w)
      → restore_current host ops t new_id id u (some current)
        ≡ undone host ops t new_id id u current (done restored, w)
  unfolding restore_current restore
  undone_current t id new_id u current restored d w old n g x =
      rw ((eqb_iff current.revision u.expected_revision).1 n, if◌then◌else◌)
        (rw (g, restore_found) (rw (old, restore) (rw x refl)))

  module _ (t : Adapter W) (id new_id : String) (u : UndoRecord) (shown restored : DocumentSnapshot)
      (d : Doc) (w : W) where
    abbrev known_state : Adapter W
    known_state = record t {
      revisions =
          Dict.put t.revisions u.document_id
            (record { fingerprint = fingerprint_of host shown; revision = u.expected_revision });
    }

    -- A rollback by its recorded change, step by step
    rollback_undoes :
        Dict.get t.undo id ≡ some u
        → u.created_document ≡ false
        → get_document host t.world u.document_id ≡ ok (some d)
        → snapshot host t.world d 0 ≡ ok shown
        → Dict.get t.revisions u.document_id
          ≡ some
              (record { fingerprint = fingerprint_of host shown; revision = u.expected_revision })
        → undo_change host ops d (revision_before u.original_receipt.before) t.world
          ≡ (done restored, w)
        → rollback host ops t new_id id
          ≡ undone host ops known_state new_id id u
              (record shown { revision = u.expected_revision })
              (done restored, w)
    unfolding rollback
    rollback_undoes p old g x known undoes =
        rw (p, rollback)
          (rw (observe_known t u.document_id u.expected_revision d shown g x known, restore_seen)
            (undone_current known_state id new_id u
              (record shown { revision = u.expected_revision }) restored d w old refl g undoes))

  -- What a rollback leaves of a commit of a plan: `restored` is the document after it.
  pub record Reverted (s : Adapter W) (receipt_id : String) (plan : ActionPlan)
      (restored : DocumentSnapshot) (w : W) (o : Result ExecutionReceipt × Adapter W) : Type 0 where
    pub answered : ExecutionReceipt
    pub returned : o.0 ≡ ok answered
    pub is_rolled_back : answered.status ≡ rolled_back
    pub of_plan : answered.plan_id ≡ plan.plan_id
    pub after_shown : answered.after ≡ some restored
    pub in_host : o.1.world ≡ w
    pub reset :
        Dict.get o.1.revisions plan.document_id
        ≡ some
            (record { fingerprint = fingerprint_of host restored; revision = plan.base_revision })
    pub records :
        (j : String) → Dict.get o.1.undo j ≡ (if receipt_id == j then none else Dict.get s.undo j)

  module _ (s t : Adapter W) (id new_id : String) (plan : ActionPlan) (r : ExecutionReceipt)
      (c : Change host ops s id plan t r) where
    abbrev written : UndoRecord
    written = record {
      document_id = plan.document_id;
      expected_revision = plan.base_revision + 1;
      created_document = is_missing c.document;
      original_receipt = r;
    }

    written_record : Dict.get t.undo id ≡ some written
    written_record = c.undo id ∙ ground (arith, eq_iff id id)

    was_there :
        (e : Doc)
        → get_document host s.world plan.document_id ≡ ok (some e)
        → is_missing c.document ≡ false
    was_there e h = ground (arith, h, c.found)

    still_noted :
        (after shown : DocumentSnapshot)
        → r.after ≡ some after
        → fingerprint_of host shown ≡ fingerprint_of host after
        → Dict.get t.revisions plan.document_id
          ≡ some (record {
            fingerprint = fingerprint_of host shown;
            revision = plan.base_revision + 1;
          })
    still_noted after shown h same =
        let e : c.after ≡ after = ground (arith, h, c.after_shown) in
        c.revisions plan.document_id
        ∙ rw (same, e) (ground (arith, eq_iff plan.document_id plan.document_id))

    Reverted-undone :
        (restored current : DocumentSnapshot) (w : W) (v : Adapter W)
        → v.undo ≡ t.undo
        → Reverted s id plan restored w
            (undone host ops v new_id id written current (done restored, w))
    unfolding undone
    Reverted-undone restored current w v h = record {
      answered = rolled_back_receipt new_id written current (some restored);
      returned = refl;
      is_rolled_back = refl;
      of_plan = c.of_plan;
      after_shown = refl;
      in_host = refl;
      reset = rw (Dict.get-put_self, validate-revision ops r.before plan c.valid) refl;
      records = λ j.
          ap (λ x. Dict.get (Dict.remove x id) j) h
          ∙ ground (arith, get-remove t.undo id j, c.undo j);
    }

  undo_change_lem :
      (d : Doc) (n : ℕ) (restored : DocumentSnapshot) (b : Bool) (v u w : W)
      → host.undo v d ≡ (ok true, u)
      → host.recompute u d ≡ (ok b, w)
      → snapshot host w d n ≡ ok restored
      → undo_change host ops d n v ≡ (done restored, w)
  unfolding undo_change
  undo_change_lem d n restored b v u w p q x = rw (p, undo_change) (rw q (rw x refl))

  -- A rollback of an applied change to a document that was there before takes the change back with the
  -- host's own undo. If the host still shows the document with the features of the receipt, and its
  -- `undo` and `recompute` succeed and leave a document that has a snapshot, then the host is left in
  -- exactly the state after these two calls; the receipt has the status `rolled_back` and that
  -- snapshot, which has the plan's base revision again; and the undo records are those before the
  -- change, without one under the call's id.
  pub rollback-Reverted :
      (s : Adapter W) (id new_id : String) (plan : ActionPlan) (dry : Bool) (r : ExecutionReceipt)
      (after shown restored : DocumentSnapshot) (d e : Doc) (b : Bool) (v w : W)
      → (execute host ops s id plan dry).0 ≡ ok r
      → r.status ≡ applied
      → r.after ≡ some after
      → get_document host s.world plan.document_id ≡ ok (some e)
      → get_document host (execute host ops s id plan dry).1.world plan.document_id ≡ ok (some d)
      → snapshot host (execute host ops s id plan dry).1.world d 0 ≡ ok shown
      → fingerprint_of host shown ≡ fingerprint_of host after
      → host.undo (execute host ops s id plan dry).1.world d ≡ (ok true, v)
      → host.recompute v d ≡ (ok b, w)
      → snapshot host w d plan.base_revision ≡ ok restored
      → Reverted s id plan restored w
          (rollback host ops (execute host ops s id plan dry).1 new_id id)
  rollback-Reverted s id new_id plan dry r after shown restored d e b v w q a h old there looks same
        undone_there recomputed restores =
      let c = execute-Change host ops s id plan dry r q a in
      let t = (execute host ops s id plan dry).1 in
      let u = written s t id new_id plan r c in
      let base = validate-revision ops r.before plan c.valid in
      let undoes =
        undo_change_lem d plan.base_revision restored b t.world v w undone_there recomputed
          restores in
      rw
        (rollback_undoes t id new_id u shown restored d w (written_record s t id new_id plan r c)
          (was_there s t id new_id plan r c e old) there looks
          (still_noted s t id new_id plan r c after shown h same) (rw base undoes))
        (Reverted-undone s t id new_id plan r c restored
          (record shown { revision = plan.base_revision + 1 }) w
          (known_state t id new_id u shown restored d w) refl)
