-- ===== src/Macros/Leftovers.antt =====
-- When a macro runs, and what a macro that failed leaves open.
use cadrig.Base.{
  String, ◌≡◌, refl, sym, ap, ◌∙◌, inl, inr, Bool, true, false, Bool-cases, not, ◌&&◌, Option, none,
  some, List, [], ◌∷◌, ◌==◌, eq_iff, keep, contains, subst, Error, Result, Result-cases, ok, err,
  arith, if◌then◌else◌,
}
use cadrig.Contracts.{null_list}
use cadrig.Macros.Policy.{Parser, parsed, Node, review}
use cadrig.Macros.Generation.{MacroArtifact, syntax_only}
use cadrig.Macros.Execution.{
  MacroHost, MacroReceipt, failed, Ended, not_approved, has_syntax_error, no_backup, escaped,
  returned, document_names, Tried, succeeded, broke, try_macro, abort_open, close_all, close_new,
  conclude, run_macro, backed_up, with_backup, run_reviewed, execute,
}
use cadrig.Macros.Safety.{syntax_only-review, null_list_nil}

contains-keep_new :
    (m : String) (before ns : List String)
    → contains m (keep (λ n. not (contains n before)) ns)
      ≡ (contains m ns && not (contains m before))
contains-keep_new m before [] = refl
contains-keep_new m before (n ∷ ns) = elim (Bool-cases (m == n)) [
  | inl e ↦
      ground
        (arith, e, contains-keep_new m before ns, ap (λ x. contains x before) ((eq_iff m n).0 e))
  | inr e ↦ ground (arith, e, contains-keep_new m before ns)
]

module _ {W Doc Obj : Type 0} (app : MacroHost W Doc Obj) where
  -- `closeDocument` closes the document of that name and no other.
  abbrev pub Closes : Type 0
  Closes =
      (w : W) (n m : String)
      → contains m (document_names app (app.host.close_document w n).1)
        ≡ (contains m (document_names app w) && not (m == n))

  -- `saveCopy` opens and closes no document.
  abbrev pub KeepsOpen : Type 0
  KeepsOpen =
      (w : W) (d : Doc) (p : String)
      → document_names app (app.save_copy w d p).1 ≡ document_names app w

  names-close_all :
      Closes
      → (ns : List String) (w : W) (m : String)
      → contains m (document_names app (close_all app ns w))
        ≡ (contains m (document_names app w) && not (contains m ns))
  unfolding close_all
  names-close_all law [] w m = ground arith
  names-close_all law (n ∷ ns) w m =
      names-close_all law ns (app.host.close_document w n).1 m ∙ ground (arith, law w n m)

  -- After the cleanup no document is open that was not open before.
  names-close_new :
      Closes
      → (before : List String) (w : W) (m : String)
      → contains m (document_names app (close_new app before w)) ≡ true
      → contains m before ≡ true
  names-close_new law before w m h =
      let new = keep (λ n. not (contains n before)) (document_names app w) in
      ground
        (arith, h, names-close_all law new w m, contains-keep_new m before (document_names app w))

  module _ (parse : Parser) (id : String) (a : MacroArtifact) (w : W) where
    -- The state in which a macro runs: with a backup of the active document, if there is one.
    abbrev pub Prepared : Option Doc → W → Type 0
    Prepared none v = w ≡ v
    Prepared (some d) v = (app.save_copy w d id ≡ (ok tt, v)) × (app.is_saved v d id ≡ true)

    -- What precedes a receipt `r`
    pub record Ran (r : MacroReceipt) (v : W) : Type 0 where
      pub tree : List Node
      pub parses : parse a.code ≡ parsed tree
      pub start : W
      pub prepared : Prepared (app.active_document w) start
      pub document : Option String
      pub runs : run_macro app id a (app.active_document w) document start ≡ (returned r, v)

    backed_returned :
        (d : Doc) (document : String) (o : Result (Unit {0}) × W) {r : MacroReceipt} {v : W}
        → backed_up app id a d document o ≡ (returned r, v)
        → (u : W) × (o ≡ (ok tt, u))
          × (app.is_saved u d id ≡ true)
          × (run_macro app id a (some d) (some document) u ≡ (returned r, v))
    backed_returned d document (err e, u) h = absurd (cc)
    backed_returned d document (ok x, u) h = elim (Bool-cases (app.is_saved u d id)) [
      | inl e ↦ (u, refl, e, (rw (e, if◌then◌else◌) at h))
      | inr e ↦ absurd (ground (arith, e, h))
    ]

    with_backup_returned :
        (active : Option Doc) {r : MacroReceipt} {v : W}
        → app.active_document w ≡ active
        → (tree : List Node) → parse a.code ≡ parsed tree
        → with_backup app id a active w ≡ (returned r, v)
        → Ran r v
    with_backup_returned none e tree p h = record {
      tree = tree;
      parses = p;
      start = w;
      prepared = rw (e, Prepared) refl;
      document = none;
      runs = rw e h;
    }
    with_backup_returned (some d) e tree p h =
        let name = app.host.document_name w d in
        let (u, s, k, q) = backed_returned d name (app.save_copy w d id) h in
        record {
          tree = tree;
          parses = p;
          start = u;
          prepared = rw (e, Prepared) (s, k);
          document = some name;
          runs = rw e q;
        }

    pub execute-Ran :
        (approved : Bool) (r : MacroReceipt) (v : W)
        → execute app parse id a approved w ≡ (returned r, v)
        → (approved ≡ true) × Ran r v
    unfolding execute
    execute-Ran false r v h = absurd (cc)
    execute-Ran true r v h = elim (Result-cases (review parse a.code)) [
      | inl (x, e) ↦ absurd (ground (arith, rw (e, run_reviewed) at h))
      | inr (ds, e) ↦ elim (Bool-cases (not (null_list (syntax_only ds)))) [
        | inl n ↦ absurd (ground (arith, rw (e, run_reviewed) at h, n))
        | inr n ↦
            let (tree, p) =
              syntax_only-review parse a.code ds e (null_list_nil (syntax_only ds) n) in
            (
              refl,
              with_backup_returned (app.active_document w) refl tree p
                  (rw (n, if◌then◌else◌) at (rw (e, run_reviewed) at h)),
            )
      ]
    ]

    -- How `execute` ends. Only in the last case the macro runs.
    pub data Guarded (approved : Bool) : Ended × W → Type 0 where
      unapproved : approved ≡ false → Guarded approved (not_approved, w)
      unparsed : approved ≡ true → Guarded approved (has_syntax_error, w)
      unreviewed : (e : Error) → approved ≡ true → Guarded approved (escaped e, w)
      unsaved :
          (d : Doc) (e : Error)
          → app.active_document w ≡ some d
          → (app.save_copy w d id).0 ≡ err e
          → Guarded approved (escaped e, (app.save_copy w d id).1)
      lost :
          (d : Doc)
          → app.active_document w ≡ some d
          → app.is_saved (app.save_copy w d id).1 d id ≡ false
          → Guarded approved (no_backup, (app.save_copy w d id).1)
      ran :
          (tree : List Node) (document : Option String) (start : W)
          → approved ≡ true
          → parse a.code ≡ parsed tree
          → Prepared (app.active_document w) start
          → Guarded approved (run_macro app id a (app.active_document w) document start)

    backed_up-Guarded :
        (d : Doc) (document : String) (tree : List Node) (o : Result (Unit {0}) × W)
        → app.active_document w ≡ some d
        → parse a.code ≡ parsed tree
        → app.save_copy w d id ≡ o
        → Guarded true (backed_up app id a d document o)
    backed_up-Guarded d document tree (err e, u) h p q =
        rw (ap (λ (o : Result (Unit {0}) × W). o.1) (sym q))
          (unsaved d e h (ap (λ (o : Result (Unit {0}) × W). o.0) q))
    backed_up-Guarded d document tree (ok x, u) h p q = elim (Bool-cases (app.is_saved u d id)) [
      | inl e ↦
          rw (e, if◌then◌else◌)
            (subst (λ o. Guarded true (run_macro app id a o (some document) u)) h
              (ran tree (some document) u refl p (rw (h, Prepared) (q, e))))
      | inr e ↦
          rw (e, if◌then◌else◌)
            (rw (ap (λ (o : Result (Unit {0}) × W). o.1) (sym q))
              (lost d h (ap (λ (o : Result (Unit {0}) × W). app.is_saved o.1 d id) q ∙ e)))
    ]

    with_backup-Guarded :
        (active : Option Doc) (tree : List Node)
        → app.active_document w ≡ active
        → parse a.code ≡ parsed tree
        → Guarded true (with_backup app id a active w)
    with_backup-Guarded none tree h p =
        subst (λ o. Guarded true (run_macro app id a o none w)) h
          (ran tree none w refl p (rw (h, Prepared) refl))
    with_backup-Guarded (some d) tree h p =
        backed_up-Guarded d (app.host.document_name w d) tree (app.save_copy w d id) h p refl

    -- A macro runs only if it was approved, its code parses, and a backup of the active document, if
    -- there is one, was saved before. In every other case `execute` leaves the program as it was, or
    -- as the attempt to save the backup left it.
    pub execute-Guarded : (approved : Bool) → Guarded approved (execute app parse id a approved w)
    unfolding execute
    execute-Guarded false = unapproved refl
    execute-Guarded true = elim (Result-cases (review parse a.code)) [
      | inl (x, e) ↦ rw (e, run_reviewed) (unreviewed x refl)
      | inr (ds, e) ↦ elim (Bool-cases (not (null_list (syntax_only ds)))) [
        | inl n ↦ rw (e, run_reviewed) (rw (n, if◌then◌else◌) (unparsed refl))
        | inr n ↦
            let (tree, p) =
              syntax_only-review parse a.code ds e (null_list_nil (syntax_only ds) n) in
            rw (e, run_reviewed)
              (rw (n, if◌then◌else◌) (with_backup-Guarded (app.active_document w) tree refl p))
      ]
    ]

    -- After a failure no document is open that was not open before.
    conclude_leaves :
        Closes
        → (active : Option Doc) (document : Option String) (before : List String)
          (t : Tried app × W)
        → (r : MacroReceipt) (v : W) (m : String)
        → conclude app id a active document before t ≡ (returned r, v)
        → r.status ≡ failed
        → contains m (document_names app v) ≡ true
        → contains m before ≡ true
    unfolding conclude
    conclude_leaves law active document before (succeeded, u) r v m h s c =
        absurd (ground (arith, h, s))
    conclude_leaves law active document before (broke e open_now, u) r v m h s c =
        names-close_new law before (abort_open app active open_now u) m
          (ap (λ (o : Ended × W). contains m (document_names app o.1)) h ∙ c)

    names-Prepared :
        KeepsOpen
        → (active : Option Doc) (v : W) → Prepared active v
        → document_names app v ≡ document_names app w
    names-Prepared law none v h = ap (document_names app) (sym h)
    names-Prepared law (some d) v h =
        ap (λ (o : Result (Unit {0}) × W). document_names app o.1) (sym h.0) ∙ law w d id

    -- A document that is open after a receipt of a failure was open before `execute`, if
    -- `closeDocument` closes the document of its name and no other, and `saveCopy` opens and closes none.
    pub execute_leaves :
        Closes
        → KeepsOpen
        → (approved : Bool) (r : MacroReceipt) (v : W) (m : String)
        → execute app parse id a approved w ≡ (returned r, v)
        → r.status ≡ failed
        → contains m (document_names app v) ≡ true
        → contains m (document_names app w) ≡ true
    unfolding run_macro
    execute_leaves law keeps approved r v m h s c =
        let ran = (execute-Ran approved r v h).1 in
        let active = app.active_document w in
        sym (ap (contains m) (names-Prepared keeps active ran.start ran.prepared))
        ∙ conclude_leaves law active ran.document (document_names app ran.start)
            (try_macro app active a ran.start) r v m ran.runs s c
