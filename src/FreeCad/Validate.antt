-- ===== src/FreeCad/Validate.antt =====
-- `validate` of freecad.py, for the snapshot that `observe` gives.
use cadrig.Base.{
  ℕ, String, Bool, true, not, ◌||◌, Option, none, some, List, [], ◌∷◌, ◌++◌, ◌==◌, map, keep,
  length, eqb, if◌then◌else◌,
}
use cadrig.Base.Dict
use cadrig.Json.{str, FloatOps}
use cadrig.Contracts.{
  Action, ActionPlan, create_document, delete_feature, Diagnostic, DocumentSnapshot, same_kind,
  supports,
}
use cadrig.Steps.{Step, done, failure, raised, ◌>>=◌, fail}
use cadrig.FreeCad.Names.{supported, feature_actions, is_document_id}
use cadrig.FreeCad.Preflight.{preflight}

unfoldable pub id_diagnostics : String → List Diagnostic
id_diagnostics document_id =
    if is_document_id document_id
    then []
    else record { code = "INVALID_DOCUMENT_ID"; action_id = none } ∷ []

unfoldable pub stale_diagnostics : ℕ → ℕ → List Diagnostic
stale_diagnostics current base =
    if eqb current base
    then []
    else record { code = "STALE_DOCUMENT_REVISION"; action_id = none } ∷ []

abbrev pub is_create : Action → Bool
is_create a = same_kind a.kind create_document

-- `plan.actions[0].kind is not ActionKind.CREATE_DOCUMENT`; a plan has actions
abbrev pub first_is_other : List Action → Bool
first_is_other [] = true
first_is_other (a ∷ actions) = not (is_create a)

abbrev pub exists_diagnostics : List Action → List Diagnostic
exists_diagnostics [] = []
exists_diagnostics (a ∷ creates) =
    record { code = "DOCUMENT_ALREADY_EXISTS"; action_id = some a.action_id } ∷ []

-- The check of the `create_document` actions
unfoldable pub creation_diagnostics : Option DocumentSnapshot → List Action → List Diagnostic
creation_diagnostics none actions =
    if not (eqb (length (keep is_create actions)) 1) || first_is_other actions
    then record { code = "DOCUMENT_NOT_FOUND"; action_id = none } ∷ []
    else []
creation_diagnostics (some s) actions = exists_diagnostics (keep is_create actions)

-- `current.revision if current else 0`
abbrev pub current_revision : Option DocumentSnapshot → ℕ
current_revision none = 0
current_revision (some s) = s.revision

-- `{feature.feature_id for feature in current.features} if current else set()`
abbrev pub known_ids : Option DocumentSnapshot → List String
known_ids none = []
known_ids (some s) = map (λ f. f.feature_id) s.features

-- `str(action.parameters["feature_id"])`: a text, after the preflight
abbrev pub new_id : Action → String
new_id a = elim (Dict.get a.parameters "feature_id") [ some (str s) ↦ s | _ ↦ "" ]

abbrev pub without_target : Option String → List String → List String
without_target none known = known
without_target (some t) known = if t == "" then known else keep (λ i. not (i == t)) known

-- The ids that are known after an action that passed
unfoldable pub known_after : Action → List String → List String
known_after a known =
    if supports feature_actions a.kind
    then new_id a ∷ known
    else if same_kind a.kind delete_feature
    then without_target a.target_id known
    else known

module _ (ops : FloatOps) where
  unfoldable pub check_action : Action → List String → Step (Unit {0})
  check_action a known =
      if supports supported a.kind then preflight ops a known else fail "UNSUPPORTED_ACTION" a

  -- `for action in plan.actions`
  unfoldable pub check_actions : List Action → List String → Step (List Diagnostic)
  check_actions [] known = done []
  check_actions (a ∷ actions) known = elim (check_action a known) [
    | done u ↦ check_actions actions (known_after a known)
    | failure d ↦ check_actions actions known >>= λ ds. done (d ∷ ds)
    | raised e ↦ raised e
  ]

  -- `validate(plan)`, where `current` is `self.observe(plan.document_id)`
  unfoldable pub validate : Option DocumentSnapshot → ActionPlan → Step (List Diagnostic)
  unfolding check_actions
  validate current plan =
      let early =
        id_diagnostics plan.document_id
        ++ (stale_diagnostics (current_revision current) plan.base_revision
            ++ creation_diagnostics current plan.actions) in
      check_actions plan.actions (known_ids current) >>= λ later. done (early ++ later)
