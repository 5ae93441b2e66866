-- ===== src/Memory/Apply.antt =====
-- `_apply` and the static methods that it calls. A step ends with a value, with the diagnostic of an
-- `_ActionFailure`, or with another exception.
use cadrig.Base.{String, Option, none, some, List, [], ◌∷◌, overflow_error, if◌then◌else◌}
use cadrig.Base.Text.{is_blank}
use cadrig.Base.Dict
use cadrig.Base.Dict.{Dict}
use cadrig.Json.{Json, int, float, str, Float, FloatOps, not_positive, not_positive_float}
use cadrig.Contracts.{
  Action, ActionKind, create_document, add_box, add_cylinder, set_parameter, delete_feature,
}
use cadrig.Memory.State.{Feature, Document}
pub use cadrig.Steps.{Step, done, failure, raised, ◌>>=◌, fail}

-- `_new_feature_id`
unfoldable pub new_feature_id : Action → Step String
new_feature_id a = elim (Dict.get a.parameters "feature_id") [
  | some (str s) ↦ if is_blank s then fail "INVALID_PARAMETER" a else done s
  | _ ↦ fail "INVALID_PARAMETER" a
]

module _ (ops : FloatOps) where
  -- The test of `value` and `float(value)`, as in `_positive_parameters` and `_set_parameter`.
  unfoldable pub positive_number : Action → Option Json → Step Float
  positive_number a (some (int n)) =
      if not_positive n
      then fail "INVALID_PARAMETER" a
      else elim (ops.of_int n) [ none ↦ raised overflow_error | some x ↦ done x ]
  positive_number a (some (float x)) =
      if not_positive_float x then fail "INVALID_PARAMETER" a else done x
  positive_number a _ = fail "INVALID_PARAMETER" a

  -- `_positive_parameters(action, names)`; the names are distinct
  unfoldable pub positive_parameters : Action → List String → Step (Dict Json)
  positive_parameters a [] = done []
  positive_parameters a (name ∷ names) =
      let rest = positive_parameters a names in
      do x ← positive_number a (Dict.get a.parameters name); r ← rest; done ((name, float x) ∷ r)

  -- `_set_parameter(document, action)`
  unfoldable pub set_feature_parameter : Document → Action → String → Feature → Step Document
  unfolding positive_number
  set_feature_parameter d a target f = elim (Dict.get a.parameters "name") [
    | some (str name) ↦
        if Dict.has f.parameters name
        then (do
          x ← positive_number a (Dict.get a.parameters "value")
          done (record d {
            features =
                Dict.put d.features target
                  (record f { parameters = Dict.put f.parameters name (float x) });
          }))
        else fail "PARAMETER_NOT_FOUND" a
    | _ ↦ fail "PARAMETER_NOT_FOUND" a
  ]

-- `_add_feature`
unfoldable pub add_feature : Document → String → String → Dict Json → Action → Step Document
add_feature d feature_id feature_type parameters a =
    if Dict.has d.features feature_id
    then fail "DUPLICATE_FEATURE" a
    else done (record d {
      features = Dict.put d.features feature_id (record {
        feature_id = feature_id;
        feature_type = feature_type;
        parameters = parameters;
      });
    })

-- `target is None or target not in document.features`, and the feature otherwise
unfoldable pub target_feature : Document → Action → Option (String × Feature)
target_feature d a = elim a.target_id [
  | none ↦ none
  | some t ↦ elim (Dict.get d.features t) [ none ↦ none | some f ↦ some (t, f) ]
]

module _ (ops : FloatOps) where
  -- The branches of `_apply` for a document that is there.
  unfoldable pub apply_to : Document → ActionKind → Action → Step Document
  unfolding new_feature_id positive_parameters add_feature target_feature set_feature_parameter
  apply_to d add_box a = do
    i ← new_feature_id a
    p ← positive_parameters ops a ("width" ∷ "depth" ∷ "height" ∷ [])
    add_feature d i "box" p a
  apply_to d add_cylinder a = do
    i ← new_feature_id a
    p ← positive_parameters ops a ("radius" ∷ "height" ∷ [])
    add_feature d i "cylinder" p a
  apply_to d set_parameter a = elim (target_feature d a) [
    | none ↦ fail "FEATURE_NOT_FOUND" a
    | some (t, f) ↦ set_feature_parameter ops d a t f
  ]
  apply_to d delete_feature a = elim (target_feature d a) [
    | none ↦ fail "FEATURE_NOT_FOUND" a
    | some (t, f) ↦ done (record d { features = Dict.remove d.features t })
  ]
  apply_to d _ a = fail "UNSUPPORTED_ACTION" a

  abbrev apply_kind : String → Option Document → ActionKind → Action → Step Document
  apply_kind document_id doc create_document a =
      done (record { document_id = document_id; revision = 0; features = [] })
  apply_kind document_id none kind a = fail "DOCUMENT_NOT_FOUND" a
  apply_kind document_id (some d) kind a = apply_to d kind a

  -- `_apply(document_id, document, action)`
  unfoldable pub apply_action : String → Option Document → Action → Step Document
  unfolding apply_to
  apply_action document_id doc a = apply_kind document_id doc a.kind a

  -- `for action in plan.actions: candidate = self._apply(...)`
  unfoldable pub apply_all : String → Option Document → List Action → Step (Option Document)
  apply_all document_id doc [] = done doc
  apply_all document_id doc (a ∷ actions) =
      apply_action document_id doc a >>= λ d. apply_all document_id (some d) actions
