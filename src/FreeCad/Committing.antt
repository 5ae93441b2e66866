-- ===== src/FreeCad/Committing.antt =====
-- What a commit of the FreeCAD adapter went through: the calls of the host on the way.
use cadrig.Base.{◌≡◌, refl, subst, Bool, true, false, Option, none, some, Result, ok, err}
use cadrig.Json.{FloatOps}
use cadrig.Contracts.{ActionPlan, DocumentSnapshot}
use cadrig.Steps.{Step, done, failure, raised}
use cadrig.FreeCad.Host.{Host}
use cadrig.FreeCad.Execute.{
  Attempted, previewed, committed, conclude, transact, attempt, perform, in_transaction, on_new,
  handled, leave_preview, discard,
}
use cadrig.FreeCad.Methods.{is_missing}
use cadrig.FreeCad.Monad.{call, outcome}

module _ {W Doc Obj : Type 0} (host : Host W Doc Obj) (ops : FloatOps) where
  -- The document of the transaction and the state in which it is opened
  abbrev pub Started : Option Doc → ActionPlan → W → Doc → W → Type 0
  Started none plan w d v = host.new_document w plan.document_id ≡ (ok d, v)
  Started (some e) plan w d v = (e ≡ d) × (w ≡ v)

  pub record Commit (document : Option Doc) (plan : ActionPlan) (w v : W) (after : DocumentSnapshot)
      : Type 0 where
    pub changed : Doc
    pub started : W
    pub opened : W
    pub performed : W
    pub starts : Started document plan w changed started
    pub opens : host.open_transaction started changed plan.plan_id ≡ (ok tt, opened)
    pub performs :
        perform host ops changed plan (is_missing document) opened ≡ (done after, performed)
    pub commits : host.commit_transaction performed changed ≡ (ok tt, v)

  handled_committed :
      (d : Doc) (open_now : Bool) (next : Attempted host ops) (r : Step (Unit {0}) × W)
      {after : DocumentSnapshot} {v : W}
      → handled host ops d open_now next r ≡ (committed after, v)
      → (next ≡ committed after) × (r ≡ (done tt, v))
  handled_committed d open_now next (done u, w) h = (cc, cc)
  handled_committed d open_now next (failure x, w) h = absurd (cc)
  handled_committed d open_now next (raised e, w) h = absurd (cc)

  call_done :
      (r : Result (Unit {0}) × W) {v : W}
      → ◌≡◌ {A = Step (Unit {0}) × W} (outcome r.0, r.1) (done tt, v)
      → r ≡ (ok tt, v)
  call_done (ok u, w) h = cc
  call_done (err e, w) h = absurd (cc)

  left_committed :
      (d : Doc) (created : Bool) (x : DocumentSnapshot) (r : Step (Unit {0}) × W)
      {after : DocumentSnapshot} {v : W}
      → ¬ (leave_preview host ops d created x r ≡ (committed after, v))
  left_committed d created x (done u, w) h =
      let (p, q) = handled_committed d false (previewed x) (discard host ops d created w) h in cc
  left_committed d created x (failure y, w) h = cc
  left_committed d created x (raised e, w) h = cc

  conclude_committed :
      (d : Doc) (created dry : Bool) (r : Step DocumentSnapshot × W) {after : DocumentSnapshot}
      {v : W}
      → conclude host ops d created dry r ≡ (committed after, v)
      → (dry ≡ false) × (r.0 ≡ done after) × (host.commit_transaction r.1 d ≡ (ok tt, v))
  unfolding conclude
  conclude_committed d created dry (failure x, w) h = absurd (cc)
  conclude_committed d created dry (raised e, w) h = absurd (cc)
  conclude_committed d created true (done x, w) h =
      absurd (left_committed d created x (call (λ v. host.abort_transaction v d) w) h)
  conclude_committed d created false (done x, w) h =
      let f = λ (v : W). host.commit_transaction v d in
      let (p, q) = handled_committed d true (committed x) (call f w) h in
      (refl, cc, call_done (f w) q)

  transaction_committed :
      (d : Doc) (plan : ActionPlan) (created dry : Bool) (r : Step (Unit {0}) × W)
      {after : DocumentSnapshot} {v : W}
      → in_transaction host ops d plan created dry r ≡ (committed after, v)
      → (r.0 ≡ done tt)
        × (conclude host ops d created dry (perform host ops d plan created r.1)
            ≡ (committed after, v))
  transaction_committed d plan created dry (done u, w) h = (refl, h)
  transaction_committed d plan created dry (failure x, w) h = absurd (cc)
  transaction_committed d plan created dry (raised e, w) h = absurd (cc)

  transact_committed :
      (document : Option Doc) (d : Doc) (plan : ActionPlan) (dry : Bool) (w started : W)
      {after : DocumentSnapshot} {v : W}
      → Started document plan w d started
      → transact host ops d plan (is_missing document) dry started ≡ (committed after, v)
      → (dry ≡ false) × Commit document plan w v after
  unfolding transact
  transact_committed document d plan dry w started {after} {v} start h =
      let f = λ (x : W). host.open_transaction x d plan.plan_id in
      let created = is_missing document in
      let (p, q) = transaction_committed d plan created dry (call f started) h in
      let run = perform host ops d plan created (f started).1 in
      let (e, g, c) = conclude_committed d created dry run q in
      (
        e,
        record {
          changed = d;
          started = started;
          opened = (f started).1;
          performed = run.1;
          starts = start;
          opens = call_done (f started) (λ i. (p i, (f started).1));
          performs = λ i. (g i, run.1);
          commits = c;
        },
      )

  new_committed :
      (plan : ActionPlan) (dry : Bool) (w : W) (r : Result Doc × W) {after : DocumentSnapshot}
      {v : W}
      → host.new_document w plan.document_id ≡ r
      → on_new host ops plan dry r ≡ (committed after, v)
      → (dry ≡ false) × Commit none plan w v after
  new_committed plan dry w (ok d, x) e h = transact_committed none d plan dry w x e h
  new_committed plan dry w (err e, x) p h = absurd (cc)

  -- A `try` that ends with a commit made all of its calls, and was no preview.
  pub attempt_committed :
      (document : Option Doc) (plan : ActionPlan) (dry : Bool) (w : W) {after : DocumentSnapshot}
      {v : W}
      → attempt host ops document plan dry w ≡ (committed after, v)
      → (dry ≡ false) × Commit document plan w v after
  unfolding attempt
  attempt_committed none plan dry w h =
      new_committed plan dry w (host.new_document w plan.document_id) refl h
  attempt_committed (some d) plan dry w h =
      transact_committed (some d) d plan dry w w (refl, refl) h

  -- A `try` that is no preview does not end as one.
  abbrev NotPreviewed : Attempted host ops → Type 0
  NotPreviewed (previewed after) = ⊥
  NotPreviewed _ = Unit

  handled_real :
      (d : Doc) (open_now : Bool) (next : Attempted host ops) (r : Step (Unit {0}) × W)
      → NotPreviewed next
      → NotPreviewed (handled host ops d open_now next r).0
  handled_real d open_now next (done u, w) h = h
  handled_real d open_now next (failure x, w) h = tt
  handled_real d open_now next (raised e, w) h = tt

  conclude_real :
      (d : Doc) (created : Bool) (r : Step DocumentSnapshot × W)
      → NotPreviewed (conclude host ops d created false r).0
  unfolding conclude
  conclude_real d created (done x, w) =
      handled_real d true (committed x) (call (λ v. host.commit_transaction v d) w) tt
  conclude_real d created (failure x, w) = tt
  conclude_real d created (raised e, w) = tt

  transaction_real :
      (d : Doc) (plan : ActionPlan) (created : Bool) (r : Step (Unit {0}) × W)
      → NotPreviewed (in_transaction host ops d plan created false r).0
  transaction_real d plan created (done u, w) =
      conclude_real d created (perform host ops d plan created w)
  transaction_real d plan created (failure x, w) = tt
  transaction_real d plan created (raised e, w) = tt

  transact_real :
      (d : Doc) (plan : ActionPlan) (created : Bool) (w : W)
      → NotPreviewed (transact host ops d plan created false w).0
  unfolding transact
  transact_real d plan created w =
      transaction_real d plan created (call (λ v. host.open_transaction v d plan.plan_id) w)

  new_real :
      (plan : ActionPlan) (r : Result Doc × W) → NotPreviewed (on_new host ops plan false r).0
  new_real plan (ok d, w) = transact_real d plan true w
  new_real plan (err e, w) = tt

  attempt_real :
      (document : Option Doc) (plan : ActionPlan) (w : W)
      → NotPreviewed (attempt host ops document plan false w).0
  unfolding attempt
  attempt_real none plan w = new_real plan (host.new_document w plan.document_id)
  attempt_real (some d) plan w = transact_real d plan false w

  pub attempt_previewed :
      (document : Option Doc) (plan : ActionPlan) (dry : Bool) (w : W) {after : DocumentSnapshot}
      {v : W}
      → attempt host ops document plan dry w ≡ (previewed after, v)
      → dry ≡ true
  attempt_previewed document plan true w h = refl
  attempt_previewed document plan false w h =
      absurd
        (subst (λ (r : Attempted host ops × W). NotPreviewed r.0) h (attempt_real document plan w))
