-- ===== src/FreeCad/Changes.antt =====
-- What an applied receipt of the FreeCAD adapter says, and that a rollback of it finds its record.
use cadrig.Base.{
  ℕ, ◌+◌, String, ◌≡◌, refl, sym, ap, ◌∙◌, subst, ◌≢◌, inl, inr, Bool, Option, some, List, [],
  Result, ok, err, arith, eq_iff, ◌==◌, if◌then◌else◌,
}
use cadrig.Base.Dict
use cadrig.Base.Dict.{Dict, key_cases, get-put}
use cadrig.Json.{FloatOps}
use cadrig.Contracts.{ActionPlan, Diagnostic, DocumentSnapshot, ExecutionReceipt, applied}
use cadrig.Steps.{Step, done}
use cadrig.FreeCad.Host.{Host}
use cadrig.FreeCad.Objects.{snapshot}
use cadrig.FreeCad.Apply.{recompute_and_inspect}
use cadrig.FreeCad.Validate
use cadrig.FreeCad.State.{Adapter, get_document, observe, fingerprint_of}
use cadrig.FreeCad.Execute.{perform, run_actions, remaining_actions}
use cadrig.FreeCad.Methods.{is_missing, execute}
use cadrig.FreeCad.Monad.{answer, outcome, after_done, ◌>>◌}
use cadrig.FreeCad.Observing.{snapshot-revision, world-observe, undo-observe, revisions-observe}
use cadrig.FreeCad.Committing.{Commit}
use cadrig.FreeCad.Executing.{
  Executed, raises, refuses, previews, commits, execute-cases, noted_state, success,
}

module _ {W Doc Obj : Type 0} (host : Host W Doc Obj) (ops : FloatOps) where
  answered :
      (w : W) (r : Result DocumentSnapshot) {x : DocumentSnapshot} {v : W}
      → ◌≡◌ {A = Step DocumentSnapshot × W} (outcome r, w) (done x, v)
      → r ≡ ok x
  answered w (ok y) h = cc
  answered w (err e) h = absurd (cc)

  ok_revision :
      (r : Result DocumentSnapshot) (n : ℕ) (x : DocumentSnapshot)
      → r ≡ ok x
      → r ≡ ok (record x { revision = n })
      → x.revision ≡ n
  ok_revision r n x p q = cc

  -- The snapshot after the actions has the next revision.
  perform-revision :
      (d : Doc) (plan : ActionPlan) (created : Bool) (w : W) {x : DocumentSnapshot} {v : W}
      → perform host ops d plan created w ≡ (done x, v)
      → x.revision ≡ plan.base_revision + 1
  unfolding perform
  perform-revision d plan created w {x} h =
      let n = plan.base_revision + 1 in
      let rest =
        λ (u : Unit {0}). recompute_and_inspect host ops d >> answer (λ y. snapshot host y d n) in
      let (u, w1, p, q) =
        after_done rest (run_actions host ops d (remaining_actions created plan.actions) w) h in
      let (u2, w2, p2, q2) =
        after_done (λ (u : Unit {0}). answer (λ y. snapshot host y d n))
          (recompute_and_inspect host ops d w1) q in
      let e = answered w2 (snapshot host w2 d n) q2 in
      ok_revision (snapshot host w2 d n) n x e (snapshot-revision host w2 d n n e)

  -- What an applied receipt `r` of a call from the state `s` says of the state `t` after it
  pub record Change (s : Adapter W) (id : String) (plan : ActionPlan) (t : Adapter W)
      (r : ExecutionReceipt) : Type 0 where
    pub of_plan : r.plan_id ≡ plan.plan_id
    pub before_shown : (observe host s plan.document_id).0 ≡ ok r.before
    pub valid : Validate.validate ops r.before plan ≡ done []
    pub document : Option Doc
    pub found : get_document host s.world plan.document_id ≡ ok document
    pub after : DocumentSnapshot
    pub after_shown : r.after ≡ some after
    pub commit : Commit host ops document plan s.world t.world after
    pub advanced : after.revision ≡ plan.base_revision + 1
    pub revisions :
        (j : String)
        → Dict.get t.revisions j ≡ (
            if plan.document_id == j
            then some (record {
              fingerprint = fingerprint_of host after;
              revision = plan.base_revision + 1;
            })
            else Dict.get s.revisions j)
    pub undo :
        (j : String)
        → Dict.get t.undo j ≡ (
            if id == j
            then some (record {
              document_id = plan.document_id;
              expected_revision = plan.base_revision + 1;
              created_document = is_missing document;
              original_receipt = r;
            })
            else Dict.get s.undo j)

  put_over {ℓ} :
      {V : Type ℓ} (d e : Dict V) (k j : String) (v : V)
      → ((i : String) → k ≢ i → Dict.get d i ≡ Dict.get e i)
      → Dict.get (Dict.put d k v) j ≡ (if k == j then some v else Dict.get e j)
  put_over d e k j v h = elim (key_cases k j) [
    | inl p ↦ ground (arith, get-put d k j v, eq_iff k j, p)
    | inr p ↦ ground (arith, get-put d k j v, eq_iff k j, h j p)
  ]

  module _ (s : Adapter W) (id : String) (plan : ActionPlan) (dry : Bool) where
    abbrev seen : Adapter W
    seen = noted_state host ops s id plan dry

    applied_call :
        (before : Option DocumentSnapshot) (checked : Step (List Diagnostic))
        (o : Result ExecutionReceipt × Adapter W) (r : ExecutionReceipt)
        → (observe host s plan.document_id).0 ≡ ok before
        → checked ≡ Validate.validate ops before plan
        → Executed host ops seen id plan dry before checked o
        → o.0 ≡ ok r
        → r.status ≡ applied
        → Change s id plan o.1 r
    applied_call before checked o r shown v (raises e _ c p) q a = absurd (cc)
    applied_call before checked o r shown v (refuses d ds w _ p) q a =
        absurd (ground (arith, p, q, a))
    applied_call before checked o r shown v (previews after w _ y p) q a =
        absurd (ground (arith, p, q, a))
    applied_call before checked o r shown v (commits document after w _ valid g e c p) q a =
        let same : success host ops seen id plan dry before after ≡ r = ground (arith, p, q) in
        let worlds = world-observe host s plan.document_id in
        let n = perform-revision c.changed plan (is_missing document) c.opened c.performs in
        subst (Change s id plan o.1) same (
          rw p (record {
            of_plan = refl;
            before_shown = shown;
            valid = sym v ∙ valid;
            document = document;
            found = subst (λ x. get_document host x plan.document_id ≡ ok document) worlds g;
            after = after;
            after_shown = refl;
            commit = subst (λ x. Commit host ops document plan x w after) worlds c;
            advanced = n;
            revisions = λ j. rw (sym n) (
                put_over seen.revisions s.revisions plan.document_id j _
                  (revisions-observe host s plan.document_id));
            undo = λ j. rw (sym n) (
                put_over seen.undo s.undo id j _
                  (λ i h. ap (λ u. Dict.get u i) (undo-observe host s plan.document_id)));
          }))

    -- An applied receipt means that the plan validated against the document as it was observed, which
    -- the receipt shows; that the host opened a transaction, ran the actions, passed the inspection and
    -- committed; that the receipt shows the snapshot after them, one above the plan's base revision;
    -- that this revision is noted under the snapshot's fingerprint, and under the call's id an undo
    -- record with the receipt; and that the revisions of other documents and the other records stay.
    pub execute-Change :
        (r : ExecutionReceipt)
        → (execute host ops s id plan dry).0 ≡ ok r
        → r.status ≡ applied
        → Change s id plan (execute host ops s id plan dry).1 r
    execute-Change r q a = elim (execute-cases host ops s id plan dry) [
      | inl (e, p) ↦ absurd (ground (arith, p, q))
      | inr (before, shown, x) ↦
          applied_call before (Validate.validate ops before plan) (execute host ops s id plan dry) r
            shown refl x q a
    ]
