-- ===== src/FreeCad/Accepting.antt =====
-- What a plan without diagnostics from `validate` of freecad.py satisfies.
use cadrig.Base.{
  ℕ, String, ◌≡◌, refl, ap, ◌∙◌, inl, inr, true, Bool-cases, Option, none, some, List, [], ◌∷◌,
  ◌++◌, keep, length, arith,
}
use cadrig.Json.{FloatOps}
use cadrig.Contracts.{
  Action, ActionPlan, create_document, Diagnostic, DocumentSnapshot, same_kind-eq,
}
use cadrig.Steps.{Step, done, failure, raised, ◌>>=◌}
use cadrig.FreeCad.Names.{is_document_id}
use cadrig.FreeCad.Validate.{
  id_diagnostics, stale_diagnostics, current_revision, creation_diagnostics, exists_diagnostics,
  is_create, check_actions, known_ids, validate,
}
use cadrig.FreeCad.Scope.{Scoped, check_actions-Scoped}

-- The plan's own actions create its document: exactly one, and first, for a document that is missing.
abbrev pub CreatesOnce : Option DocumentSnapshot → List Action → Type 0
CreatesOnce none actions =
    (a : Action) × (rest : List Action) × (actions ≡ a ∷ rest)
    × (a.kind ≡ create_document)
    × (keep is_create rest ≡ [])
CreatesOnce (some s) actions = keep is_create actions ≡ []

length_zero : (actions : List Action) → length actions ≡ 0 → actions ≡ []
length_zero [] h = refl
length_zero (a ∷ actions) h = absurd (ground (arith, h))

exists_nil : (creates : List Action) → exists_diagnostics creates ≡ [] → creates ≡ []
exists_nil [] h = refl
exists_nil (a ∷ creates) h = absurd (cc)

creation_nil :
    (current : Option DocumentSnapshot) (actions : List Action)
    → creation_diagnostics current actions ≡ []
    → CreatesOnce current actions
unfolding creation_diagnostics
creation_nil none [] h = absurd (cc)
creation_nil none (a ∷ actions) h = elim (Bool-cases (is_create a)) [
  | inl e ↦ (
    a,
    actions,
    refl,
    same_kind-eq a.kind create_document e,
    ground (arith, h, e, length_zero (keep is_create actions)),
  )
  | inr e ↦ absurd (ground (arith, h, e))
]
creation_nil (some s) actions h = exists_nil (keep is_create actions) h

early_parts :
    (i t c l : List Diagnostic)
    → (i ++ (t ++ c)) ++ l ≡ []
    → (i ≡ []) × (t ≡ []) × (c ≡ []) × (l ≡ [])
early_parts [] [] [] l h = (refl, refl, refl, h)
early_parts [] [] (x ∷ c) l h = absurd (cc)
early_parts [] (x ∷ t) c l h = absurd (cc)
early_parts (x ∷ i) t c l h = absurd (cc)

stale_nil : (m n : ℕ) → stale_diagnostics m n ≡ [] → m ≡ n
unfolding stale_diagnostics
stale_nil m n h = ground arith

id_nil : (s : String) → id_diagnostics s ≡ [] → is_document_id s ≡ true
unfolding id_diagnostics
id_nil s h = ground arith

checks_nil :
    (early : List Diagnostic) (checks : Step (List Diagnostic))
    → (checks >>= λ later. done (early ++ later)) ≡ done []
    → (later : List Diagnostic) × (checks ≡ done later) × (early ++ later ≡ [])
checks_nil early (done later) h = (later, refl, cc)
checks_nil early (failure d) h = absurd (cc)
checks_nil early (raised e) h = absurd (cc)

-- What the absence of diagnostics means
pub record Accepts (current : Option DocumentSnapshot) (plan : ActionPlan) : Type 0 where
  pub named : is_document_id plan.document_id ≡ true
  pub fresh : current_revision current ≡ plan.base_revision
  pub creates : CreatesOnce current plan.actions
  pub scoped : Scoped (known_ids current) plan.actions

-- A plan without diagnostics names a document by an identifier; is made for the revision that is
-- observed; creates the document by its first action and no other one where it is missing, and never
-- where it is there; and each action is of a supported kind, gives a feature that it creates an id that
-- is not known then, has a target that is known then if it changes one, and, if it is a cut, a tool that
-- is known then and is not the target, where what is known follows the actions before it.
pub validate-Accepts :
    (ops : FloatOps) (current : Option DocumentSnapshot) (plan : ActionPlan)
    → validate ops current plan ≡ done []
    → Accepts current plan
unfolding validate
validate-Accepts ops current plan h =
    let i = id_diagnostics plan.document_id in
    let t = stale_diagnostics (current_revision current) plan.base_revision in
    let c = creation_diagnostics current plan.actions in
    let (later, e, n) =
      checks_nil (i ++ (t ++ c)) (check_actions ops plan.actions (known_ids current)) h in
    let (p, q, r, l) = early_parts i t c later n in
    record {
      named = id_nil plan.document_id p;
      fresh = stale_nil (current_revision current) plan.base_revision q;
      creates = creation_nil current plan.actions r;
      scoped = check_actions-Scoped ops plan.actions (known_ids current) (e ∙ ap done l);
    }
